-- ===== src/Client.antt =====
-- taquin-client-cpp/libs/src/internal/sio_client_impl.{h,cpp}: the state of `client_impl`, its setters,
-- its sockets and what goes out. A method returns the client with what it asks of websocketpp, Asio
-- and the listeners added to its log, in order. Listeners are named by numbers.
pub mod Connection
pub mod Setters
pub mod Handshake
pub mod Incoming
pub mod Wire
pub mod Crossing
pub mod Answering
pub mod Request
pub mod Greeting
pub mod Lost
pub mod Opened
pub mod Reconnect
pub mod Registry
pub mod Sockets
use taquin_client_project.Base.{
  ℕ, suc, ◌+◌, ◌%◌, ◌^◌, ◌-◌, Bytes, codes, bytes_eq, Bool, true, false, not, ltb, ◌==◌,
  if◌then◌else◌, Option, none, some, List, [], ◌∷◌, ◌++◌,
}
use taquin_client_project.Base.SortedMap.{find, put, erase, bytes_key}
use taquin_client_project.Result.{Result, ok, err, ◌>>=◌}
use taquin_client_project.Message.{Ptr}
use taquin_client_project.Packet.{Packet, Codec}
use taquin_client_project.Packet.Manager.{Manager, Payload, encode}
use taquin_client_project.Socket.{
  Socket, Action, send, opened, closed, removed, arm, cancel, call_ack, call_error, create,
}

pub data ConState : Type 0 where
  con_opening con_opened con_closing con_closed : ConState

-- The close codes of websocketpp that the code uses, and any other.
pub data CloseCode : Type 0 where
  normal policy_violation abnormal_close other_code : CloseCode

-- `client::close_reason`
pub data CloseReason : Type 0 where
  close_reason_normal close_reason_drop : CloseReason

pub data Timer : Type 0 where
  ping_timer ping_timeout_timer reconn_timer : Timer

pub data Effect : Type 0 where
  -- `dispatch` of `connect_impl`, `close_impl` and `send_impl`
  dispatch_connect : Bytes → Bytes → Effect
  dispatch_close : CloseCode → Bytes → Effect
  dispatch_send : Bool → Bytes → Effect
  -- `m_client.connect`, `m_client.close` and `m_client.send` on the connection
  connect_to : Bytes → Effect
  close_connection : CloseCode → Bytes → Effect
  transmit : Bool → Bytes → Effect
  -- `expires_from_now` with `async_wait`, and `cancel`
  arm_timer : Timer → ℕ → Effect
  cancel_timer : Timer → Effect
  -- `join` and a new `thread`; `m_client.reset()`
  join_thread start_thread reset_endpoint : Effect
  -- the listeners
  call_listener : ℕ → Effect
  call_reconnect : ℕ → ℕ → ℕ → Effect
  call_close : ℕ → CloseReason → Effect
  call_socket : ℕ → Bytes → Effect
  -- what a socket asks of its timer or its callbacks
  from_socket : Bytes → Action → Effect

pub record Client : Type 0 where
  pub con_state : ConState
  -- `m_con` is not expired
  pub con : Bool
  pub sid : Bytes
  pub base_url : Bytes
  pub query_string : Bytes
  pub ping_interval : ℕ
  pub ping_timeout : ℕ
  pub network_thread : Bool
  pub packet_mgr : Manager
  pub has_ping_timer : Bool
  pub has_ping_timeout_timer : Bool
  pub has_reconn_timer : Bool
  pub open_listener : Option ℕ
  pub fail_listener : Option ℕ
  pub reconnecting_listener : Option ℕ
  pub reconnect_listener : Option ℕ
  pub close_listener : Option ℕ
  pub socket_open_listener : Option ℕ
  pub socket_close_listener : Option ℕ
  pub sockets : List (Bytes × Socket)
  pub reconn_delay : ℕ
  pub reconn_delay_max : ℕ
  pub reconn_attempts : ℕ
  pub reconn_made : ℕ
  -- `s_global_event_id` of the sockets
  pub next_id : ℕ
  pub log : List Effect

-- The constructor: both packet callbacks are set.
unfoldable pub new_client : ℕ → Client
new_client next_id = record {
  con_state = con_closed;
  con = false;
  sid = [];
  base_url = [];
  query_string = [];
  ping_interval = 0;
  ping_timeout = 0;
  network_thread = false;
  packet_mgr = record {
    partial_packet = none;
    has_decode_callback = true;
    has_encode_callback = true;
  };
  has_ping_timer = false;
  has_ping_timeout_timer = false;
  has_reconn_timer = false;
  open_listener = none;
  fail_listener = none;
  reconnecting_listener = none;
  reconnect_listener = none;
  close_listener = none;
  socket_open_listener = none;
  socket_close_listener = none;
  sockets = [];
  reconn_delay = 5000;
  reconn_delay_max = 25000;
  reconn_attempts = 0xFFFFFFFF;
  reconn_made = 0;
  next_id = next_id;
  log = [];
}

abbrev pub tell : Client → List Effect → Client
tell c more = record c { log = c.log ++ more }

-- `if(m_..._listener) m_..._listener()`
abbrev pub if_set : Option ℕ → (ℕ → Effect) → List Effect
if_set none f = []
if_set (some l) f = f l ∷ []

abbrev pub is_opened : ConState → Bool
is_opened con_opened = true
is_opened _ = false

-- `opened()`
abbrev pub client_opened : Client → Bool
client_opened c = is_opened c.con_state

-- `on_encode`: each payload goes to `send_impl` through the service.
abbrev pub dispatch_sends : List Payload → List Effect
dispatch_sends [] = []
dispatch_sends ((is_binary, s) ∷ rest) = dispatch_send is_binary s ∷ dispatch_sends rest

-- The key of a namespace: "" is "/", and a leading slash is added.
unfoldable pub normal_nsp : Bytes → Bytes
normal_nsp [] = codes "/"
normal_nsp (ch ∷ rest) = if not (ch == b'/') then b'/' ∷ ch ∷ rest else ch ∷ rest

module _ (codec : Codec) where
  -- `send(p)`
  unfoldable pub send_out : Packet → Client → Result Client
  send_out p c =
      encode codec c.packet_mgr p false >>= λ (p', calls). ok (tell c (dispatch_sends calls))

  -- What one action of a socket does to its client.
  unfoldable pub perform : Bytes → Action → Client → Result Client
  perform nsp (send p) c = send_out p c
  perform nsp (opened n) c = ok (tell c (if_set c.socket_open_listener λ l. call_socket l n))
  perform nsp (closed n) c = ok (tell c (if_set c.socket_close_listener λ l. call_socket l n))
  perform nsp (removed n) c = ok (record c { sockets = erase n c.sockets })
  perform nsp (arm w ms) c = ok (tell c (from_socket nsp (arm w ms) ∷ []))
  perform nsp cancel c = ok (tell c (from_socket nsp cancel ∷ []))
  perform nsp (call_ack l ms) c = ok (tell c (from_socket nsp (call_ack l ms) ∷ []))
  perform nsp (call_error l m) c = ok (tell c (from_socket nsp (call_error l m) ∷ []))

  unfoldable pub perform_all : Bytes → List Action → Client → Result Client
  perform_all nsp [] c = ok c
  perform_all nsp (a ∷ more) c = perform nsp a c >>= perform_all nsp more

  -- The socket is stored, and what it asked for is done.
  unfoldable pub settle : Bytes → Socket → Client → Result Client
  settle nsp s c =
      perform_all nsp s.log
        (record c { sockets = put nsp (record s { log = [] }) c.sockets; next_id = s.next_id })

  -- `sockets_invoke_void`: the method is called on each socket of a copy of the map, in its order.
  unfoldable pub invoke_each : (Socket → Socket) → List (Bytes × Socket) → Client → Result Client
  invoke_each fn [] c = ok c
  invoke_each fn ((nsp, s) ∷ rest) c =
      settle nsp (fn (record s { next_id = c.next_id })) c >>= invoke_each fn rest

  unfoldable pub sockets_invoke_void : (Socket → Socket) → Client → Result Client
  unfolding invoke_each
  sockets_invoke_void fn c = invoke_each fn c.sockets c

  -- `socket(nsp)`: the socket of the namespace, made where it is missing.
  unfoldable pub socket : Bytes → Client → Result Client
  socket nsp c =
      let key = normal_nsp nsp in
      elim (find key c.sockets) [
        | some s ↦ ok c
        | none ↦ settle key (create true (client_opened c) key c.next_id) c
      ]

-- `get_socket_locked`
unfoldable pub get_socket : Bytes → Client → Option Socket
get_socket nsp c = find nsp c.sockets

-- `remove_socket`
unfoldable pub remove_socket : Bytes → Client → Client
remove_socket nsp c = record c { sockets = erase nsp c.sockets }
