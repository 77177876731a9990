-- ===== src/Socket/Delivery.antt =====
-- An event or an acknowledgement on its way from `packet_manager::encode` of one side to the listener or
-- the callback of a socket on the other side.
use taquin_client_project.Base.{
  ℕ, ◌<◌, ◌^◌, ◌≡◌, refl, ap, sym, ◌∙◌, ℤ, pos, is_nonneg, Bytes, bytes_eq, bytes_eq_iff, Bool,
  true, false, if◌then◌else◌, none, some, List, [], ◌∷◌, ◌++◌, length, append_assoc, append-nil,
  ltb,
}
use taquin_client_project.Base.SortedMap.{find, erase, nat_key, bytes_key}
use taquin_client_project.Result.{Result, ok}
use taquin_client_project.Message.{Message, Ptr, nullptr, ptr, to_list, of_list}
use taquin_client_project.Message.Arrays.{push}
use taquin_client_project.Message.Lists.{to_event_message, to_array_message}
use taquin_client_project.Json.WellFormed.{WellFormedItems, binaries}
use taquin_client_project.Packet.{Packet, Codec, message_packet, get_type}
use taquin_client_project.Packet.Manager.{Manager, Payload, encode, put_all}
use taquin_client_project.Packet.Body.{some_id, PackId, CastsInt}
use taquin_client_project.Packet.Head.{final_type, Nsp, CastsUnsigned}
use taquin_client_project.Packet.RoundTrip.{Carries, delivered, payloads, put_all-encode}
use taquin_client_project.Socket.{call_ack, Socket, Event, create_event, get_bind_listener, ack}
use taquin_client_project.Socket.Acks.{on_socketio_ack-eq}
use taquin_client_project.Socket.Messages.{
  push_all, on_message_packet, on_type, on_event_packet, on_event_array, on_ack_packet,
  on_socketio_event, on_socketio_ack,
}

to_list-of_list : (ms : List Ptr) → to_list (of_list ms) ≡ ms
to_list-of_list [] = refl
to_list-of_list (p ∷ ms) = ap (◌∷◌ p) (to_list-of_list ms)

push_all-append : (got ms : List Ptr) → WellFormedItems (of_list ms) → push_all got ms ≡ got ++ ms
unfolding push_all push
push_all-append got [] w = sym (append-nil got)
push_all-append got (nullptr ∷ ms) (w, rest) = elim w [ ]
push_all-append got (ptr m ∷ ms) (w, rest) =
    push_all-append (got ++ ptr m ∷ []) ms rest ∙ append_assoc got (ptr m ∷ []) ms

-- The listener is called with the event; where the event has an id, what the listener left as the answer
-- is acknowledged.
abbrev pub answered :
    (ℕ → Event → Socket → Event × Socket)
    → ℕ
    → Bytes
    → Bytes
    → List Ptr
    → ℤ
    → Socket
    → Result Socket
answered invoke l nsp name ms i s =
    let (ev, s') = invoke l (create_event nsp name ms (is_nonneg i)) s in
    if is_nonneg i then ack i ev.ack_message s' else ok s'

module _ (invoke : ℕ → Event → Socket → Event × Socket) where
  -- A packet for the socket's namespace is handled by its type.
  on_message_packet-own :
      (p : Packet) (s : Socket) (t : ℤ)
      → s.attached ≡ true
      → s.nsp ≡ p.nsp
      → get_type p ≡ ok t
      → on_message_packet invoke p s ≡ on_type invoke t p s
  unfolding on_message_packet
  on_message_packet-own p s t a n g =
      let same : bytes_eq p.nsp s.nsp ≡ true = (bytes_eq_iff p.nsp s.nsp).1 (sym n) in
      simp (a, same, g)

  get_type-delivered :
      (is_ack has_binary : Bool) (nsp : Bytes) (i : ℤ) (m : Message)
      → ltb 0 (length (binaries m)) ≡ has_binary
      → get_type (delivered is_ack nsp i m) ≡ ok (pos (final_type is_ack has_binary))
  unfolding get_type
  get_type-delivered true true nsp i m e = rw e refl
  get_type-delivered true false nsp i m e = rw e refl
  get_type-delivered false true nsp i m e = rw e refl
  get_type-delivered false false nsp i m e = rw e refl

  on_type-event :
      (has_binary : Bool) (p : Packet) (s : Socket)
      → on_type invoke (pos (final_type false has_binary)) p s ≡ on_event_packet invoke p s
  unfolding on_type
  on_type-event true p s = refl
  on_type-event false p s = refl

  on_type-ack :
      (has_binary : Bool) (p : Packet) (s : Socket)
      → on_type invoke (pos (final_type true has_binary)) p s ≡ on_ack_packet invoke p s
  unfolding on_type
  on_type-ack true p s = refl
  on_type-ack false p s = refl

  on_event_packet-delivered :
      (nsp name : Bytes) (ms : List Ptr) (i : ℤ) (l : ℕ) (s : Socket)
      → find name s.bindings ≡ some l
      → WellFormedItems (of_list ms)
      → on_event_packet invoke (delivered false nsp i (to_event_message name ms)) s
        ≡ answered invoke l nsp name ms i s
  unfolding on_event_packet on_event_array on_socketio_event get_bind_listener to_event_message
  on_event_packet-delivered nsp name ms i l s b w =
      simp (to_list-of_list ms, push_all-append [] ms w, b)

  pub on_event-delivered :
      (nsp name : Bytes) (ms : List Ptr) (i : ℤ) (l : ℕ) (s : Socket)
      → s.attached ≡ true
      → s.nsp ≡ nsp
      → find name s.bindings ≡ some l
      → WellFormedItems (of_list ms)
      → on_message_packet invoke (delivered false nsp i (to_event_message name ms)) s
        ≡ answered invoke l nsp name ms i s
  on_event-delivered nsp name ms i l s a n b w =
      let m : Message = to_event_message name ms in
      let p : Packet = delivered false nsp i m in
      let has : Bool = ltb 0 (length (binaries m)) in
      on_message_packet-own p s (pos (final_type false has)) a n
        (get_type-delivered false has nsp i m refl)
      ∙ on_type-event has p s
      ∙ on_event_packet-delivered nsp name ms i l s b w

  pub on_ack-delivered :
      (nsp : Bytes) (ms : List Ptr) (i : ℤ) (s : Socket)
      → s.attached ≡ true
      → s.nsp ≡ nsp
      → on_message_packet invoke (delivered true nsp i (to_array_message ms)) s
        ≡ ok (on_socketio_ack i ms s)
  unfolding on_ack_packet to_array_message
  on_ack-delivered nsp ms i s a n =
      let m : Message = to_array_message ms in
      let p : Packet = delivered true nsp i m in
      let has : Bool = ltb 0 (length (binaries m)) in
      on_message_packet-own p s (pos (final_type true has)) a n
        (get_type-delivered true has nsp i m refl)
      ∙ on_type-ack has p s
      ∙ ap (λ qs. ok (on_socketio_ack i qs s)) (to_list-of_list ms)

module _ (c : Codec) (sender receiver : Manager) (invoke : ℕ → Event → Socket → Event × Socket)
    (casts : CastsInt c) (counts : CastsUnsigned c) (sends : sender.has_encode_callback ≡ true)
    (decodes : receiver.has_decode_callback ≡ true) (idle : receiver.partial_packet ≡ none) where
  -- The casts read back what the streams write; the sender has an encode callback, and the receiver has a
  -- decode callback and waits for no attachment. An event (its namespace the root or of Nsp's form, its id
  -- none or below 2^31, its messages well formed with fewer than 2^31 binaries, carried by the JSON
  -- library) that the constructor accepts is encoded; its payloads make the receiver decode one packet; and
  -- the attached socket of that namespace hands the event, with its name and all its messages in order, to
  -- the listener bound to the name. If the event has an id, what the listener leaves as the answer is
  -- acknowledged with that id.
  pub event_reaches_listener :
      (nsp nsp' name : Bytes) (ms : List Ptr) (i : ℤ) (p : Packet) (l : ℕ) (s : Socket)
      → Carries c (to_event_message name ms)
      → Nsp nsp nsp'
      → PackId i
      → WellFormedItems (of_list ms)
      → length (binaries (to_event_message name ms)) < 2 ^ 31
      → message_packet nsp (ptr (to_event_message name ms)) i false ≡ ok p
      → s.attached ≡ true
      → s.nsp ≡ nsp'
      → find name s.bindings ≡ some l
      → (p' q : Packet) × (calls : List Payload) × (encode c sender p false ≡ ok (p', calls))
        × (put_all c receiver (payloads calls)
            ≡ ok (record receiver { partial_packet = none }, q ∷ []))
        × (on_message_packet invoke q s ≡ answered invoke l nsp' name ms i s)
  unfolding to_event_message
  event_reaches_listener nsp nsp' name ms i p l s carries ns id w small made a n b =
      let m : Message = to_event_message name ms in
      let (calls, encodes, puts, _) =
        put_all-encode c sender receiver false nsp nsp' m i p casts counts carries sends decodes
          idle ns id (tt, w) small made in
      (
        _,
        delivered false nsp' i m,
        calls,
        encodes,
        puts,
        on_event-delivered invoke nsp' name ms i l s a n b w,
      )

  -- The casts read back what the streams write; the sender has an encode callback, and the receiver has a
  -- decode callback and waits for no attachment. An acknowledgement (its namespace the root or of
  -- Nsp's form, its id below 2^31, its reply well formed with fewer than 2^31 binaries, carried by the JSON
  -- library) that the constructor accepts is encoded; its payloads make the receiver decode one packet; and
  -- the attached socket of that namespace calls the callback registered under the id with the reply, forgets
  -- it, and does nothing else.
  pub ack_reaches_callback :
      (nsp nsp' : Bytes) (reply : List Ptr) (id cb : ℕ) (p : Packet) (s : Socket)
      → Carries c (to_array_message reply)
      → Nsp nsp nsp'
      → id < 2 ^ 31
      → WellFormedItems (of_list reply)
      → length (binaries (to_array_message reply)) < 2 ^ 31
      → message_packet nsp (ptr (to_array_message reply)) (pos id) true ≡ ok p
      → s.attached ≡ true
      → s.nsp ≡ nsp'
      → find id s.acks ≡ some cb
      → (p' q : Packet) × (calls : List Payload) × (encode c sender p false ≡ ok (p', calls))
        × (put_all c receiver (payloads calls)
            ≡ ok (record receiver { partial_packet = none }, q ∷ []))
        × (on_message_packet invoke q s
            ≡ ok (record s { acks = erase id s.acks; log = s.log ++ call_ack cb reply ∷ [] }))
  unfolding to_array_message
  ack_reaches_callback nsp nsp' reply id cb p s carries ns low w small made a n b =
      let m : Message = to_array_message reply in
      let (calls, encodes, puts, _) =
        put_all-encode c sender receiver true nsp nsp' m (pos id) p casts counts carries sends
          decodes idle ns (some_id id low) w small made in
      (
        _,
        delivered true nsp' (pos id) m,
        calls,
        encodes,
        puts,
        on_ack-delivered invoke nsp' reply (pos id) s a n
            ∙ ap ok (on_socketio_ack-eq s id cb reply b),
      )
