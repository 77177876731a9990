-- ===== src/Client/Connection.antt =====
-- The connection of `client_impl` (sio_client_impl.cpp): opening, closing and reconnects.
-- A connection's time-dependent parts are arguments: the answer of websocketpp, error codes, the clock.
use taquin_client_project.Base.{
  ℕ, ◌+◌, ◌%◌, ◌^◌, to_string, Bytes, codes, Bool, true, false, ltb, ◌==◌, if◌then◌else◌, List, [],
  ◌∷◌, ◌++◌, length,
}
use taquin_client_project.Result.{Result, ok, ◌>>=◌}
use taquin_client_project.Packet.{Codec}
use taquin_client_project.Packet.Manager.{Payload, encode}
use taquin_client_project.Packet.Manager
use taquin_client_project.Socket
use taquin_client_project.Socket.{close, on_disconnect}
use taquin_client_project.Client.{
  Client, ConState, con_opening, con_opened, con_closing, con_closed, CloseCode, normal,
  close_reason_normal, close_reason_drop, ping_timer, ping_timeout_timer, reconn_timer,
  dispatch_connect, dispatch_close, connect_to, close_connection, transmit, arm_timer, cancel_timer,
  join_thread, start_thread, reset_endpoint, call_listener, call_reconnect, call_close, tell,
  if_set, is_opened, sockets_invoke_void, socket,
}

-- The doubles that `next_delay` uses: an `unsigned` as a double, the literal `1.5`, `*`, `pow` of the C
-- library, `<`, and the cast back to `unsigned`.
pub record Doubles : Type 1 where
  pub Double : Type 0
  pub of_unsigned : ℕ → Double
  pub one_and_a_half : Double
  pub times : Double → Double → Double
  pub power : Double → ℕ → Double
  pub less : Double → Double → Bool
  pub to_unsigned : Double → ℕ

-- `min<double>(a, b)`
abbrev pub min_double : (d : Doubles) → d.Double → d.Double → d.Double
min_double d a b = if d.less b a then b else a

abbrev pub min_unsigned : ℕ → ℕ → ℕ
min_unsigned a b = if ltb b a then b else a

unfoldable pub next_delay : Doubles → Client → ℕ
next_delay d c = d.to_unsigned (
    min_double d
      (d.times (d.of_unsigned c.reconn_delay)
        (d.power d.one_and_a_half (min_unsigned c.reconn_made 32)))
      (d.of_unsigned c.reconn_delay_max))

-- `if(m_reconn_timer) { cancel(); reset(); }`
unfoldable pub drop_reconn_timer : Client → Client
drop_reconn_timer c =
    if c.has_reconn_timer
    then record c { has_reconn_timer = false; log = c.log ++ cancel_timer reconn_timer ∷ [] }
    else c

unfoldable pub reset_states : Client → Client
reset_states c = record c {
  sid = [];
  packet_mgr = Manager.reset c.packet_mgr;
  log = c.log ++ reset_endpoint ∷ [];
}

unfoldable pub clear_timers : Client → Client
clear_timers c = record c {
  has_ping_timeout_timer = false;
  has_ping_timer = false;
  log =
      c.log
      ++ ((if c.has_ping_timeout_timer then cancel_timer ping_timeout_timer ∷ [] else [])
          ++ (if c.has_ping_timer then cancel_timer ping_timer ∷ [] else []));
}

-- "&key=value" for each entry of the query.
unfoldable pub query_text : List (Bytes × Bytes) → Bytes
query_text [] = []
query_text ((k, v) ∷ rest) = b'&' ∷ (k ++ (b'=' ∷ (v ++ query_text rest)))

-- What `connect` does once no other connection is in the way.
unfoldable pub start_connect : Bytes → List (Bytes × Bytes) → Client → Client
unfolding reset_states query_text
start_connect uri query c =
    let text = query_text query in
    let c' = reset_states (record c {
      con_state = con_opening;
      base_url = uri;
      reconn_made = 0;
      query_string = text;
    }) in
    record c' {
      network_thread = true;
      log = c'.log ++ dispatch_connect uri text ∷ start_thread ∷ [];
    }

abbrev pub is_down : ConState → Bool
is_down con_closing = true
is_down con_closed = true
is_down _ = false

unfoldable pub connect : Bytes → List (Bytes × Bytes) → Client → Client
unfolding drop_reconn_timer start_connect
connect uri query c =
    let c' = drop_reconn_timer c in
    if c'.network_thread
    then (if is_down c'.con_state
        then start_connect uri query
            (record c' { network_thread = false; log = c'.log ++ join_thread ∷ [] })
        else c')
    else start_connect uri query c'

-- The URL of `connect_impl`, from the host and the port that websocketpp finds, and the time.
unfoldable pub connect_url : Bytes → Bytes → ℕ → Bytes → Bytes → Bytes
connect_url host port time sid query =
    codes "ws://"
    ++ (host
        ++ (b':'
            ∷ (port
                ++ (if length sid == 0
                    then codes "/socket.io/?EIO=4&transport=websocket&t="
                      ++ (to_string time ++ query)
                    else codes "/socket.io/?EIO=4&transport=websocket&sid="
                      ++ (sid ++ (codes "&t=" ++ (to_string time ++ query)))))))

-- `connect_impl`: whether `get_connection` gave an error.
unfoldable pub connect_impl : Bytes → Bytes → ℕ → Bool → Bytes → Client → Client
unfolding connect_url
connect_impl host port time ec query c =
    if ec
    then tell c (if_set c.fail_listener call_listener)
    else tell c (connect_to (connect_url host port time c.sid query) ∷ [])

unfoldable pub close_impl : CloseCode → Bytes → Client → Client
unfolding drop_reconn_timer
close_impl code reason c =
    let c' = drop_reconn_timer c in
    if c'.con then tell c' (close_connection code reason ∷ []) else c'

-- A message delays the next ping.
unfoldable pub send_impl : Bool → Bytes → Client → Client
send_impl is_binary payload c =
    if is_opened c.con_state
    then tell c (
        (if c.has_ping_timer then arm_timer ping_timer c.ping_interval ∷ [] else [])
        ++ transmit is_binary payload ∷ [])
    else c

unfoldable pub timeout_reconnect : Bool → Client → Client
unfolding reset_states
timeout_reconnect ec c = if ec then c else elim c.con_state [
  | con_closed ↦
      let c' =
        reset_states
          (record c { con_state = con_opening; reconn_made = (c.reconn_made + 1) % 2 ^ 32 }) in
      tell c' (
        if_set c.reconnecting_listener call_listener
        ++ dispatch_connect c.base_url c.query_string ∷ [])
  | _ ↦ c
]

-- The reconnect listener is told, and the timer is armed with the same delay.
unfoldable pub schedule_reconnect : Doubles → Client → Client
schedule_reconnect d c =
    let delay = next_delay d c in
    record c {
      has_reconn_timer = true;
      log =
          c.log
          ++ (if_set c.reconnect_listener (λ l. call_reconnect l c.reconn_made delay)
              ++ arm_timer reconn_timer delay ∷ []);
    }

-- `on_fail` behind the sockets.
unfoldable pub retry_or_fail : Doubles → Client → Client
retry_or_fail d c =
    if ltb c.reconn_made c.reconn_attempts
    then schedule_reconnect d c
    else tell c (if_set c.fail_listener call_listener)

-- `on_close` behind the sockets, by the local close code.
unfoldable pub retry_or_close : Doubles → CloseCode → Client → Client
retry_or_close d normal c = tell c (if_set c.close_listener λ l. call_close l close_reason_normal)
retry_or_close d code c =
    if ltb c.reconn_made c.reconn_attempts
    then schedule_reconnect d c
    else tell c (if_set c.close_listener λ l. call_close l close_reason_drop)

module _ (codec : Codec) where
  unfoldable pub close_all : Client → Result Client
  close_all c = sockets_invoke_void codec close (record c { con_state = con_closing }) >>= λ c'.
      ok (tell c' (dispatch_close normal (codes "End by user") ∷ []))

  -- `close()`
  abbrev pub close_client : Client → Result Client
  close_client c = close_all c

  -- `sync_close()` waits for the network thread.
  unfoldable pub sync_close : Client → Result Client
  sync_close c = close_all c >>= λ c'. ok (
      if c'.network_thread
      then record c' { network_thread = false; log = c'.log ++ join_thread ∷ [] }
      else c')

  -- The destructor.
  unfoldable pub destroy : Client → Result Client
  destroy c = sockets_invoke_void codec Socket.on_close c >>= sync_close

  unfoldable pub on_fail : Doubles → Client → Result Client
  on_fail d c =
      sockets_invoke_void codec on_disconnect (record c { con = false; con_state = con_closed })
      >>= λ c'. ok (retry_or_fail d c')

  unfoldable pub on_open : Client → Result Client
  on_open c =
      sockets_invoke_void codec Socket.on_open
        (record c { con_state = con_opened; con = true; reconn_made = 0 })
      >>= socket codec []
      >>= λ c'. ok (tell c' (if_set c'.open_listener call_listener))

  -- The close code is `normal` where websocketpp does not find the connection.
  unfoldable pub on_close : Doubles → CloseCode → Client → Result Client
  on_close d code c =
      sockets_invoke_void codec on_disconnect
        (clear_timers (record c { con_state = con_closed; con = false }))
      >>= λ c'. ok (retry_or_close d code c')
