-- ===== src/Socket.antt =====
-- taquin-client-cpp/libs/src/sio_socket.{h,cpp}: `event` and `socket::impl`. A method takes the socket
-- and returns it; what it asks of the client, the timer and the callbacks is added to its log, in
-- order. Callbacks are named by numbers. Each locked region is part of one method's atomic step.
pub mod Messages
pub mod Delivery
pub mod Order
pub mod Threads
pub mod Acks
pub mod Faults
pub mod Closed
use taquin_client_project.Base.{
  ℕ, suc, ◌+◌, ◌%◌, ◌^◌, ℤ, pos, negsuc, to_int32, Bytes, codes, bytes_eq, Bool, true, false,
  if◌then◌else◌, Option, none, some, List, [], ◌∷◌, ◌++◌,
}
use taquin_client_project.Base.SortedMap.{find, put, erase, nat_key, bytes_key}
use taquin_client_project.Result.{Result, ok, err, ◌>>=◌}
use taquin_client_project.Message.{Ptr, nullptr, ptr}
use taquin_client_project.Message.Lists.{to_event_message, to_array_message}
use taquin_client_project.Packet.{
  Packet, message_packet, typed_packet, type_connect, type_disconnect,
}

-- `class event`
pub record Event : Type 0 where
  pub nsp : Bytes
  pub name : Bytes
  pub messages : List Ptr
  pub need_ack : Bool
  pub ack_message : List Ptr

unfoldable pub create_event : Bytes → Bytes → List Ptr → Bool → Event
create_event nsp name messages need_ack = record {
  nsp = nsp;
  name = name;
  messages = messages;
  need_ack = need_ack;
  ack_message = [];
}

-- The first message, or an empty pointer.
unfoldable pub get_message : Event → Ptr
get_message e = elim e.messages [ [] ↦ nullptr | m ∷ ms ↦ m ]

unfoldable pub put_ack_message : Event → List Ptr → Event
put_ack_message e ms = if e.need_ack then record e { ack_message = ms } else e

-- What a waiting timer will call.
pub data Wait : Type 0 where
  connection_timeout closing_timeout : Wait

pub data Action : Type 0 where
  -- `m_client->send(p)`
  send : Packet → Action
  -- `m_client->on_socket_opened`, `on_socket_closed` and `remove_socket`
  opened closed removed : Bytes → Action
  -- `expires_from_now` and `async_wait`, with the milliseconds
  arm : Wait → ℕ → Action
  cancel : Action
  -- the calls of a callback of `emit` and of the error listener
  call_ack : ℕ → List Ptr → Action
  call_error : ℕ → Ptr → Action

pub record Socket : Type 0 where
  -- `m_client` is not null
  pub attached : Bool
  pub connected : Bool
  pub nsp : Bytes
  pub acks : List (ℕ × ℕ)
  pub bindings : List (Bytes × ℕ)
  pub error_listener : Option ℕ
  -- `m_connection_timer` is not null
  pub timer : Bool
  pub queue : List Packet
  -- `s_global_event_id`, which all sockets share
  pub next_id : ℕ
  pub log : List Action

abbrev pub add_log : Socket → List Action → Socket
add_log s more = record s { log = s.log ++ more }

-- `m_event_binding[event_name] = func`
unfoldable pub on : Bytes → ℕ → Socket → Socket
on name func s = record s { bindings = put name func s.bindings }

unfoldable pub off : Bytes → Socket → Socket
off name s = record s { bindings = erase name s.bindings }

unfoldable pub off_all : Socket → Socket
off_all s = record s { bindings = [] }

unfoldable pub on_error : ℕ → Socket → Socket
on_error l s = record s { error_listener = some l }

unfoldable pub off_error : Socket → Socket
off_error s = record s { error_listener = none }

-- `get_bind_listener_locked`
unfoldable pub get_bind_listener : Bytes → Socket → Option ℕ
get_bind_listener event s = find event s.bindings

-- A connect packet and 20 seconds for the answer, except for the root namespace.
unfoldable pub send_connect : Socket → Socket
send_connect s =
    if s.attached
    then (if bytes_eq s.nsp (codes "/") then s else record s {
      timer = true;
      log =
          s.log
          ++ send (typed_packet type_connect s.nsp nullptr) ∷ arm connection_timeout 20000 ∷ [];
    })
    else s

-- The constructor: whether there is a client, and whether it is open.
unfoldable pub create : Bool → Bool → Bytes → ℕ → Socket
unfolding send_connect
create attached client_opened nsp next_id =
    let s : Socket = record {
      attached = attached;
      connected = false;
      nsp = nsp;
      acks = [];
      bindings = [];
      error_listener = none;
      timer = false;
      queue = [];
      next_id = next_id;
      log = [];
    } in
    if attached then (if client_opened then send_connect s else s) else s

-- `while (true)`: the front packet is sent until the queue is empty.
unfoldable pub send_queue : List Packet → List Action → List Action
send_queue [] log = log
send_queue (p ∷ ps) log = send_queue ps (log ++ send p ∷ [])

unfoldable pub drain : Socket → Socket
unfolding send_queue
drain s = record s { queue = []; log = send_queue s.queue s.log }

unfoldable pub send_packet : Packet → Socket → Socket
unfolding drain
send_packet p s =
    if s.attached
    then (if s.connected
        then add_log (drain s) (send p ∷ [])
        else record s { queue = s.queue ++ p ∷ [] })
    else s

-- `pack_id = s_global_event_id++`, an `int` from an `unsigned`; `m_acks[pack_id]` is unsigned again.
unfoldable pub register_ack : ℕ → Socket → Socket
register_ack callback s = record s {
  acks = put s.next_id callback s.acks;
  next_id = (s.next_id + 1) % 2 ^ 32;
}

-- `emit(name, msglist, ack)`
unfoldable pub emit : Bytes → List Ptr → Option ℕ → Socket → Result Socket
unfolding register_ack
emit name msglist ack s =
    if s.attached
    then (elim ack [
      | none ↦ message_packet s.nsp (ptr (to_event_message name msglist)) (negsuc 0) false >>= λ p.
          ok (send_packet p s)
      | some callback ↦
          message_packet s.nsp (ptr (to_event_message name msglist)) (to_int32 (pos s.next_id))
            false
          >>= λ p. ok (send_packet p (register_ack callback s))
    ])
    else ok s

unfoldable pub close : Socket → Socket
close s =
    if s.attached
    then (if s.connected
        then (let s' = send_packet (typed_packet type_disconnect s.nsp nullptr) s in
            record s' { timer = true; log = s'.log ++ arm closing_timeout 3000 ∷ [] })
        else s)
    else s

-- `m_connection_timer->cancel()` and `reset()`, if it is there.
unfoldable pub drop_timer : Socket → Socket
drop_timer s = if s.timer then record s { timer = false; log = s.log ++ cancel ∷ [] } else s

-- The first connect: the queue is sent.
unfoldable pub become_connected : Socket → Socket
unfolding drain
become_connected s =
    if s.connected then s else drain (add_log (record s { connected = true }) (opened s.nsp ∷ []))

unfoldable pub on_connected : Socket → Socket
on_connected s = become_connected (drop_timer s)

unfoldable pub on_close : Socket → Socket
unfolding drop_timer
on_close s =
    if s.attached
    then add_log (record (drop_timer s) { attached = false; connected = false; queue = [] })
        (closed s.nsp ∷ removed s.nsp ∷ [])
    else s

unfoldable pub on_open : Socket → Socket
unfolding send_connect
on_open s = send_connect s

unfoldable pub on_disconnect : Socket → Socket
on_disconnect s =
    if s.attached
    then (if s.connected then record s { connected = false; queue = [] } else s)
    else s

-- The timer's handler, with whether it has an error code.
unfoldable pub timeout_connection : Bool → Socket → Socket
unfolding on_close
timeout_connection ec s =
    if s.attached then (if ec then s else on_close (record s { timer = false })) else s

-- `ack(msgId, name, ack_message)`
unfoldable pub ack : ℤ → List Ptr → Socket → Result Socket
ack id ack_message s =
    message_packet s.nsp (ptr (to_array_message ack_message)) id true >>= λ p. ok (send_packet p s)
