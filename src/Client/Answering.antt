-- ===== src/Client/Answering.antt =====
-- The parts of a request and its answer: the packets of both, the listener, and the callback.
use taquin_client_project.Base.{
  ℕ, ◌+◌, ◌%◌, ◌<◌, ◌^◌, ◌==◌, ◌≡◌, refl, ap, ◌∙◌, arith, pos, to_int32_small, Bytes, bytes_eq_refl,
  true, false, if◌then◌else◌, none, some, List, [], ◌∷◌, ◌++◌, length,
}
use taquin_client_project.Base.SortedMap.{
  find, put, erase, find-put, find-erase, bytes_key, nat_key,
}
use taquin_client_project.Result.{ok, ◌>>=◌}
use taquin_client_project.Message.{Message, Ptr, ptr, of_list}
use taquin_client_project.Message.Lists.{to_event_message, to_array_message}
use taquin_client_project.Json.WellFormed.{WellFormed, WellFormedItems, binaries}
use taquin_client_project.Packet.{Packet, Codec, message_packet}
use taquin_client_project.Packet.Manager.{Manager, Payload, encode}
use taquin_client_project.Packet.Receive.{Completes}
use taquin_client_project.Packet.RoundTrip.{Carries, delivered}
use taquin_client_project.Socket.{
  Socket, Event, send, call_ack, create_event, emit, ack, register_ack, send_packet,
}
use taquin_client_project.Socket.Acks.{on_socketio_ack-eq}
use taquin_client_project.Socket.Delivery.{on_event-delivered, on_ack-delivered}
use taquin_client_project.Client.{
  Client, is_opened, dispatch_sends, from_socket, settle, perform, perform_all,
}
use taquin_client_project.Client.Wire.{
  send_each, send_each-sent, sent, delay, heard, patience, on_messages, on_messages-Completes,
  deliver-found,
}
use taquin_client_project.Client.Crossing.{IsReady, settle-send}

send_packet-IsReady :
    (p : Packet) (s : Socket) → IsReady s → send_packet p s ≡ record s { log = send p ∷ [] }
unfolding send_packet
send_packet-IsReady p s v = rw (v.attached, v.connected, v.queue, v.log) refl

-- A socket that waits for the answer of an event.
abbrev pub asking : Packet → ℕ → Socket → Socket
asking p callback s = record s {
  acks = put s.next_id callback s.acks;
  next_id = (s.next_id + 1) % 2 ^ 32;
  log = send p ∷ [];
}

pub emit-asking :
    (name : Bytes) (ms : List Ptr) (callback : ℕ) (s : Socket)
    → IsReady s
    → s.next_id < 2 ^ 31
    → (p : Packet) × (message_packet s.nsp (ptr (to_event_message name ms)) (pos s.next_id) false
        ≡ ok p)
      × (emit name ms (some callback) s ≡ ok (asking p callback s))
unfolding emit message_packet register_ack send_packet
emit-asking name ms callback s v h =
    (_, refl, rw (v.attached, to_int32_small s.next_id h, v.connected, v.queue, v.log) refl)

pub ack-IsReady :
    (i : ℕ) (reply : List Ptr) (s : Socket)
    → IsReady s
    → (p : Packet) × (message_packet s.nsp (ptr (to_array_message reply)) (pos i) true ≡ ok p)
      × (ack (pos i) reply s ≡ ok (record s { log = send p ∷ [] }))
unfolding ack message_packet
ack-IsReady i reply s v = (_, refl, ap ok (send_packet-IsReady _ s v))

settle-call_ack :
    (codec : Codec) (nsp : Bytes) (callback : ℕ) (reply : List Ptr) (s : Socket) (c : Client)
    → s.log ≡ call_ack callback reply ∷ []
    → settle codec nsp s c
      ≡ ok (record c {
        sockets = put nsp (record s { log = [] }) c.sockets;
        next_id = s.next_id;
        log = c.log ++ from_socket nsp (call_ack callback reply) ∷ [];
      })
unfolding settle perform_all perform
settle-call_ack codec nsp callback reply s c e = rw e refl

pub erase-put :
    (i k callback : ℕ) (acks : List (ℕ × ℕ))
    → find k (erase i (put i callback acks)) ≡ (if i == k then none else find k acks)
erase-put i k callback acks =
    ground (arith, find-erase i k (put i callback acks), find-put i k callback acks)

-- An open client with both callbacks that waits for no attachment, and its connected socket of a namespace,
-- which has nothing left to send.
pub record IsSpeaker (nsp : Bytes) (c : Client) (s : Socket) : Type 0 where
  pub encodes : c.packet_mgr.has_encode_callback ≡ true
  pub decodes : c.packet_mgr.has_decode_callback ≡ true
  pub idle : c.packet_mgr.partial_packet ≡ none
  pub up : is_opened c.con_state ≡ true
  pub low : c.next_id < 2 ^ 31
  pub stored : find nsp c.sockets ≡ some s
  pub named : s.nsp ≡ nsp
  pub ready : IsReady s

-- A well-formed message that the JSON library carries, with fewer than 2^31 binaries.
pub record IsCarried (codec : Codec) (m : Message) : Type 0 where
  pub carries : Carries codec m
  pub well_formed : WellFormed m
  pub small : length (binaries m) < 2 ^ 31

-- A manager that waits for nothing.
abbrev pub rested : Manager → Manager
rested m = record m { partial_packet = none }

module _ (codec : Codec) (invoke : ℕ → Event → Socket → Event × Socket) (nsp : Bytes) where
  -- The listener is called, and its answer goes out.
  pub answer_sent :
      (name : Bytes) (ms reply : List Ptr) (i l : ℕ) (p p' : Packet) (b : Client) (t t' : Socket)
      (ev : Event) (fs : List Bytes) (replies : List Payload)
      → Completes codec
          (rested b.packet_mgr)
          (delivered false nsp (pos i) (to_event_message name ms))
          b.packet_mgr
          fs
      → WellFormedItems (of_list ms)
      → find nsp b.sockets ≡ some t
      → t.nsp ≡ nsp
      → t.attached ≡ true
      → find name t.bindings ≡ some l
      → invoke l (create_event nsp name ms true) (record t { next_id = b.next_id }) ≡ (ev, t')
      → ack (pos i) ev.ack_message t' ≡ ok (record t' { log = send p ∷ [] })
      → encode codec (rested b.packet_mgr) p false ≡ ok (p', replies)
      → is_opened b.con_state ≡ true
      → (b' : Client) × (on_messages codec invoke fs b ≡ ok b')
        × (b'.log ≡ (b.log ++ heard (patience b) fs) ++ dispatch_sends replies)
        × ((send_each replies b').log ≡ b'.log ++ sent (delay b) replies)
  answer_sent name ms reply i l p p' b t t' ev fs replies arrives w stored named attached bound
        called acked encoded up =
      let q : Packet = delivered false nsp (pos i) (to_event_message name ms) in
      let t1 : Socket = record t { next_id = b.next_id } in
      let now : Client = record b {
        packet_mgr = rested b.packet_mgr;
        log = b.log ++ heard (patience b) fs;
      } in
      let spoken : Client = record now {
        sockets = put nsp (record t' { log = [] }) b.sockets;
        next_id = t'.next_id;
        log = now.log ++ dispatch_sends replies;
      } in
      (
        spoken,
        on_messages-Completes codec invoke (rested b.packet_mgr) q b.packet_mgr fs b arrives refl
              refl
            ∙ deliver-found codec invoke q t now stored
            ∙ ap (λ r. r >>= λ u. settle codec nsp u now)
                (on_event-delivered invoke nsp name ms (pos i) l t1 attached named bound w
                  ∙ ap (λ (r : Event × Socket). ack (pos i) r.0.ack_message r.1) called
                  ∙ acked)
            ∙ settle-send codec nsp p p' (record t' { log = send p ∷ [] }) now replies refl encoded,
        refl,
        ap (λ (c : Client). c.log) (send_each-sent replies spoken up),
      )

  -- The callback is called.
  pub called_back :
      (reply : List Ptr) (i callback : ℕ) (a : Client) (s : Socket) (fs : List Bytes)
      → Completes codec
          (rested a.packet_mgr)
          (delivered true nsp (pos i) (to_array_message reply))
          a.packet_mgr
          fs
      → find nsp a.sockets ≡ some s
      → s.nsp ≡ nsp
      → s.attached ≡ true
      → s.log ≡ []
      → find i s.acks ≡ some callback
      → (a' : Client) × (on_messages codec invoke fs a ≡ ok a')
        × (a'.log
            ≡ (a.log ++ heard (patience a) fs) ++ from_socket nsp (call_ack callback reply) ∷ [])
        × (find nsp a'.sockets
            ≡ some (record s { acks = erase i s.acks; next_id = a.next_id; log = [] }))
  called_back reply i callback a s fs arrives stored named attached quiet waits =
      let q : Packet = delivered true nsp (pos i) (to_array_message reply) in
      let s1 : Socket = record s { next_id = a.next_id } in
      let s2 : Socket = record s1 {
        acks = erase i s.acks;
        log = s.log ++ call_ack callback reply ∷ [];
      } in
      let now : Client = record a {
        packet_mgr = rested a.packet_mgr;
        log = a.log ++ heard (patience a) fs;
      } in
      (
        _,
        on_messages-Completes codec invoke (rested a.packet_mgr) q a.packet_mgr fs a arrives refl
              refl
            ∙ deliver-found codec invoke q s now stored
            ∙ ap (λ r. r >>= λ u. settle codec nsp u now)
                (on_ack-delivered invoke nsp reply (pos i) s1 attached named
                  ∙ ap ok (on_socketio_ack-eq s1 i callback reply waits))
            ∙ settle-call_ack codec nsp callback reply s2 now (rw quiet refl),
        refl,
        rw (find-put nsp nsp (record s2 { log = [] }) a.sockets, bytes_eq_refl nsp) refl,
      )
