-- ===== src/Tests/Connections.antt =====
-- A socket and a client that lose their connection.
use taquin_client_project.Base.{
  Bytes, bytes_eq, ◌⊎◌, ℕ, zero, suc, ◌+◌, ◌/◌, ◌*◌, ◌^◌, ◌-◌, pos, codes, true, false, ltb, ◌==◌,
  if◌then◌else◌, inl, none, some, List, [], ◌∷◌, ◌++◌, ◌≡◌, refl, ap, arith,
}
use native.Mathlib.Nat.{mul-div_cancel, one-le-pow, zero-add, pow-succ'}
use taquin_client_project.Base.SortedMap.{find, nat_key, bytes_key}
use taquin_client_project.Result.{ok}
use taquin_client_project.Message.{Ptr, nullptr, ptr, string}
use taquin_client_project.Packet.{Packet, typed_packet}
use taquin_client_project.Socket.{Socket, on_close, emit, drop_timer, closed, removed, call_ack}
use taquin_client_project.Socket.Messages.{on_socketio_ack}
use taquin_client_project.Socket.Order.{accepted}
use taquin_client_project.Socket.Acks.{event_packet, emit_ack_once}
use taquin_client_project.Socket.Closed.{
  apply_all, Method, emitting, receiving, dropping, on_close_final,
}
use taquin_client_project.Client.{
  Client, new_client, if_set, call_listener, con_closed, con_opened, normal_nsp, socket, other_code,
}
use taquin_client_project.Client.Sockets.{IsRegistry}
use taquin_client_project.Client.Lost.{
  IsDisconnected, on_fail-IsDisconnected, on_close-IsDisconnected,
}
use taquin_client_project.Client.Registry.{socket_once}
use taquin_client_project.Client.Connection.{Doubles, next_delay, on_fail}
use taquin_client_project.Client.Connection
use taquin_client_project.Client.Reconnect.{DoubleLaws, delay_after, next_delay-delay_after}
use taquin_client_project.Client.Reconnect.Rounds.{failed_rounds, connects, gives_up_after_attempts}
use taquin_client_project.Tests.Wire.{one_document, ignore}

-- A socket of the root namespace, before its connection is there.
abbrev pub waiting_socket : Socket
waiting_socket = record {
  attached = true;
  connected = false;
  nsp = codes "/";
  acks = [];
  bindings = [];
  error_listener = none;
  timer = false;
  queue = [];
  next_id = 7;
  log = [];
}

abbrev connected_socket : Socket
connected_socket = record waiting_socket { connected = true }

abbrev first : Packet
first = event_packet (codes "/") (codes "start-request") [] (pos 0)

abbrev second : Packet
second = event_packet (codes "/") (codes "step") [] (pos 1)

abbrev reply : List Ptr
reply = ptr (string (codes "done")) ∷ []

emit_ack_once_example :
    (s' : Socket) × (emit (codes "step") [] (some 5) connected_socket ≡ ok s')
    × (accepted s' ≡ event_packet (codes "/") (codes "step") [] (pos 7) ∷ [])
    × ((on_socketio_ack (pos 7) reply s').log ≡ s'.log ++ call_ack 5 reply ∷ [])
    × (on_socketio_ack (pos 7) [] (on_socketio_ack (pos 7) reply s')
        ≡ on_socketio_ack (pos 7) reply s')
    × ((k : ℕ)
        → find k (on_socketio_ack (pos 7) reply s').acks
          ≡ (if 7 == k then none else find k connected_socket.acks))
emit_ack_once_example =
    emit_ack_once connected_socket (codes "step") [] reply [] 5 refl (omega arith)

-- Calls after the closing.
abbrev late : List Method
late =
    emitting (codes "step") [] (some 5)
    ∷ receiving (typed_packet 2 (codes "/") nullptr)
    ∷ dropping
    ∷ []

on_close_final_example :
    (t : Socket) × (apply_all ignore late (on_close connected_socket) ≡ ok t)
    × (t.attached ≡ false)
    × (t.queue ≡ [])
    × (t.log ≡ (drop_timer connected_socket).log ++ closed (codes "/") ∷ removed (codes "/") ∷ [])
on_close_final_example = on_close_final ignore connected_socket late refl

abbrev scale : ℕ × ℕ → ℕ × ℕ → ℕ × ℕ
scale (p, e) (q, f) = (p * q, e + f)

abbrev power : ℕ × ℕ → ℕ → ℕ × ℕ
power x zero = (1, 0)
power x (suc n) = scale x (power x n)

-- Fractions p / 2 ^ e in place of doubles.
abbrev numbers : Doubles
numbers = record {
  Double = ℕ × ℕ;
  of_unsigned = λ n. (n, 0);
  one_and_a_half = (3, 1);
  times = scale;
  power = power;
  less = λ (p, e) (q, f). ltb (p * 2 ^ f) (q * 2 ^ e);
  to_unsigned = λ (p, e). p / 2 ^ e;
}

power-exact : (n : ℕ) → power (3, 1) n ≡ (3 ^ n, n)
power-exact zero = refl
power-exact (suc n) =
    rw (power-exact n, pow-succ' 3 n) (ap (λ (e : ℕ). (3 * 3 ^ n, e)) (omega arith))

numbers-DoubleLaws : DoubleLaws numbers
numbers-DoubleLaws = record {
  Is = λ x p e. x ≡ (p, e);
  integer = λ n h. refl;
  literal = refl;
  powers = λ n h. power-exact n;
  product = λ x y p q e h k small. rw (h, k) (ap (λ (f : ℕ). (p * q, f)) (omega arith));
  rounded = λ x y p q e m h k small most less.
      let above : ltb (m * 2 ^ e) (p * q * 1) ≡ false = rw (h, k, zero-add e) at less in
      let same : p * q ≡ m * 2 ^ e = ground arith in
      rw (h, k, zero-add e, same) (mul-div_cancel m (one-le-pow e 2 (omega arith)));
  compared = λ x y p e q h k. rw (h, k) (ground arith);
  cast = λ x p e h small. rw h refl;
}

-- A client with the root socket and two attempts.
abbrev persistent : Client
persistent = record (new_client 0) {
  sockets = (codes "/", connected_socket) ∷ [];
  reconn_attempts = 2;
  fail_listener = some 3;
}

next_delay-delay_after_example :
    next_delay numbers (record persistent { reconn_made = 2 }) ≡ delay_after 5000 25000 2
unfolding new_client
next_delay-delay_after_example =
    next_delay-delay_after numbers numbers-DoubleLaws (record persistent { reconn_made = 2 }) 2
      (unfold new_client in omega arith) (unfold new_client in omega arith)
      (inl (refl, omega arith)) (inl (unfold new_client in omega arith))

on_fail-IsDisconnected_example :
    (c' : Client) × (on_fail one_document numbers persistent ≡ ok c')
    × IsDisconnected c'
    × IsRegistry c'.sockets
unfolding new_client
on_fail-IsDisconnected_example =
    on_fail-IsDisconnected one_document numbers persistent ((tt, tt), (refl, tt))

on_close-IsDisconnected_example :
    (c' : Client) × (Connection.on_close one_document numbers other_code persistent ≡ ok c')
    × IsDisconnected c'
    × IsRegistry c'.sockets
unfolding new_client
on_close-IsDisconnected_example =
    on_close-IsDisconnected one_document numbers other_code persistent ((tt, tt), (refl, tt))

gives_up_after_attempts_example :
    (c1 c2 : Client) × (failed_rounds one_document numbers (2 - 0) persistent ≡ ok c1)
    × (connects c1.log ≡ connects persistent.log + (2 - 0))
    × (on_fail one_document numbers c1 ≡ ok c2)
    × (c2.log ≡ c1.log ++ if_set (some 3) call_listener)
    × (c2.con_state ≡ con_closed)
unfolding new_client
gives_up_after_attempts_example =
    gives_up_after_attempts one_document numbers persistent ((tt, tt), (refl, tt)) (omega arith)
      (omega arith)

abbrev open_client : Client
open_client = record persistent { con_state = con_opened }

socket_once_example :
    (c' : Client) × (s : Socket) × (socket one_document (codes "chat") open_client ≡ ok c')
    × ((k : Bytes)
        → find k c'.sockets
          ≡ (if bytes_eq (normal_nsp (codes "chat")) k then some s else find k open_client.sockets))
    × (((find (normal_nsp (codes "chat")) open_client.sockets ≡ some s) × (c' ≡ open_client))
        ⊎ ((find (normal_nsp (codes "chat")) open_client.sockets ≡ none)
            × (s.nsp ≡ normal_nsp (codes "chat"))))
    × (socket one_document (codes "/chat") c' ≡ ok c')
unfolding normal_nsp
socket_once_example = socket_once one_document (codes "chat") (codes "/chat") open_client refl
