-- ===== src/Socket/Acks.antt =====
-- The callback that `emit` registers and the acknowledgement that calls it.
use taquin_client_project.Base.{
  ℕ, ◌+◌, ◌<◌, ◌^◌, ℤ, pos, to_int32_small, Bytes, true, if◌then◌else◌, none, some, List, [], ◌∷◌,
  ◌++◌, ◌==◌, ◌≡◌, refl, ◌∙◌, arith,
}
use taquin_client_project.Base.SortedMap.{find, erase, find-put, find-erase, nat_key, ==_refl}
use taquin_client_project.Result.{ok}
use taquin_client_project.Message.{Ptr, ptr}
use taquin_client_project.Message.Lists.{to_event_message}
use taquin_client_project.Packet.{Packet, message_packet, type_event, type_undetermined}
use taquin_client_project.Socket.{Socket, call_ack, emit, register_ack, send_packet, drain}
use taquin_client_project.Socket.Messages.{on_socketio_ack}
use taquin_client_project.Socket.Order.{accepted, sending-Keeps}

-- The packet of an event with an id.
abbrev pub event_packet : Bytes → Bytes → List Ptr → ℤ → Packet
event_packet nsp name ms id = record {
  frame = pos 4;
  type = pos (type_event + type_undetermined);
  nsp = nsp;
  pack_id = id;
  message = ptr (to_event_message name ms);
  pending = 0;
  buffers = [];
}

emit-some :
    (s : Socket) (name : Bytes) (ms : List Ptr) (cb : ℕ)
    → s.attached ≡ true
    → s.next_id < 2 ^ 31
    → emit name ms (some cb) s
      ≡ ok (send_packet (event_packet s.nsp name ms (pos s.next_id)) (register_ack cb s))
unfolding emit message_packet
emit-some s name ms cb a small = simp (a, to_int32_small s.next_id small)

acks-send_packet : (p : Packet) (s : Socket) → (send_packet p s).acks ≡ s.acks
unfolding send_packet drain
acks-send_packet p s = ground arith

-- The reply for a registered id.
pub on_socketio_ack-eq :
    (s : Socket) (id cb : ℕ) (reply : List Ptr)
    → find id s.acks ≡ some cb
    → on_socketio_ack (pos id) reply s
      ≡ record s { acks = erase id s.acks; log = s.log ++ call_ack cb reply ∷ [] }
unfolding on_socketio_ack
on_socketio_ack-eq s id cb reply e = rw (e, on_socketio_ack)

on_socketio_ack-found :
    (s : Socket) (id cb : ℕ) (reply : List Ptr)
    → find id s.acks ≡ some cb
    → ((on_socketio_ack (pos id) reply s).log ≡ s.log ++ call_ack cb reply ∷ [])
      × ((k : ℕ)
          → find k (on_socketio_ack (pos id) reply s).acks
            ≡ (if id == k then none else find k s.acks))
on_socketio_ack-found s id cb reply e =
    rw (on_socketio_ack-eq s id cb reply e) (refl, λ k. find-erase id k s.acks)

on_socketio_ack-missing :
    (s : Socket) (id : ℕ) (reply : List Ptr)
    → find id s.acks ≡ none
    → on_socketio_ack (pos id) reply s ≡ s
unfolding on_socketio_ack
on_socketio_ack-missing s id reply e = rw (e, on_socketio_ack)

-- Take an attached socket whose next id is below 2^31, and an `emit` with a callback. It succeeds; the
-- event, with that id, is accepted behind the packets that were. The first acknowledgement with the id
-- calls the callback once, with the reply, and does nothing else to the log; a second one changes
-- nothing; and the callbacks of all other ids are as they were before the `emit`.
pub emit_ack_once :
    (s : Socket) (name : Bytes) (ms reply again : List Ptr) (cb : ℕ)
    → s.attached ≡ true
    → s.next_id < 2 ^ 31
    → (s' : Socket) × (emit name ms (some cb) s ≡ ok s')
      × (accepted s' ≡ accepted s ++ event_packet s.nsp name ms (pos s.next_id) ∷ [])
      × ((on_socketio_ack (pos s.next_id) reply s').log ≡ s'.log ++ call_ack cb reply ∷ [])
      × (on_socketio_ack (pos s.next_id) again (on_socketio_ack (pos s.next_id) reply s')
          ≡ on_socketio_ack (pos s.next_id) reply s')
      × ((k : ℕ)
          → find k (on_socketio_ack (pos s.next_id) reply s').acks
            ≡ (if s.next_id == k then none else find k s.acks))
unfolding register_ack
emit_ack_once s name ms reply again cb a small =
    let p : Packet = event_packet s.nsp name ms (pos s.next_id) in
    let s' : Socket = send_packet p (register_ack cb s) in
    let registered : (k : ℕ)
        → find k s'.acks ≡ (if s.next_id == k then some cb else find k s.acks) =
      λ k. rw (acks-send_packet p (register_ack cb s)) (find-put s.next_id k cb s.acks) in
    let here : find s.next_id s'.acks ≡ some cb = registered s.next_id ∙ rw (==_refl s.next_id) in
    let (log, rest) = on_socketio_ack-found s' s.next_id cb reply here in
    (
      s',
      emit-some s name ms cb a small,
      (sending-Keeps p (register_ack cb s) a).order,
      log,
      on_socketio_ack-missing _ s.next_id again (rest s.next_id ∙ rw (==_refl s.next_id)),
      λ k. rest k ∙ ground (arith, registered k),
    )
