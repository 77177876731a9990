-- ===== src/Client/Crossing.antt =====
-- `emit` on a socket of one client, to the listener of a socket of another.
use taquin_client_project.Base.{
  ℕ, ◌<◌, ◌^◌, ◌≡◌, refl, ap, sym, subst, ◌∙◌, ℤ, pos, negsuc, to_int32_small, Bytes, true, false,
  Option, none, some, List, [], ◌∷◌, ◌++◌, length,
}
use taquin_client_project.Base.SortedMap.{find, put, bytes_key}
use taquin_client_project.Result.{Result, ok, ◌>>=◌}
use taquin_client_project.Message.{Ptr, ptr, of_list}
use taquin_client_project.Message.Lists.{to_event_message}
use taquin_client_project.Json.WellFormed.{WellFormedItems, binaries}
use taquin_client_project.Packet.{Packet, Codec, message_packet}
use taquin_client_project.Packet.Manager.{Payload, encode}
use taquin_client_project.Packet.Body.{no_id, some_id, PackId, CastsInt}
use taquin_client_project.Packet.Head.{Nsp, CastsUnsigned}
use taquin_client_project.Packet.RoundTrip.{Carries, delivered, payloads, put_all-encode}
use taquin_client_project.Socket.{Socket, Event, send, emit, register_ack, send_packet}
use taquin_client_project.Socket.Delivery.{answered, on_event-delivered}
use taquin_client_project.Client.{
  Client, is_opened, dispatch_sends, settle, perform, perform_all, send_out,
}
use taquin_client_project.Client.Wire.{
  on_socket, send_each, sent, delay, transmitted, heard, patience, on_messages, send_each-sent,
  transmitted-sent_from, on_messages-Completes, deliver-found,
}

-- The id of an event: one only where there is a callback.
abbrev pub event_id : Option ℕ → ℕ → ℤ
event_id none next = negsuc 0
event_id (some callback) next = pos next

event_id-PackId : (callback : Option ℕ) (next : ℕ) → next < 2 ^ 31 → PackId (event_id callback next)
event_id-PackId none next h = no_id
event_id-PackId (some l) next h = some_id next h

-- A connected socket of an open client, with nothing left to send.
pub record IsReady (s : Socket) : Type 0 where
  pub attached : s.attached ≡ true
  pub connected : s.connected ≡ true
  pub queue : s.queue ≡ []
  pub log : s.log ≡ []

send_packet-log : (p : Packet) (s : Socket) → IsReady s → (send_packet p s).log ≡ send p ∷ []
unfolding send_packet
send_packet-log p s v = rw (v.attached, v.connected, v.queue, v.log) refl

-- The packet of an event, and what the socket asks for it.
pub emit-IsReady :
    (name : Bytes) (ms : List Ptr) (callback : Option ℕ) (s : Socket)
    → IsReady s
    → s.next_id < 2 ^ 31
    → (p : Packet) × (s' : Socket) × (message_packet s.nsp
          (ptr (to_event_message name ms))
          (event_id callback s.next_id)
          false
        ≡ ok p)
      × (emit name ms callback s ≡ ok s')
      × (s'.log ≡ send p ∷ [])
unfolding emit message_packet register_ack
emit-IsReady name ms none s v h =
    (_, send_packet _ s, refl, rw v.attached refl, send_packet-log _ s v)
emit-IsReady name ms (some l) s v h = (
  _,
  send_packet _ (register_ack l s),
  refl,
  rw (v.attached, to_int32_small s.next_id h) refl,
  send_packet-log _ (register_ack l s)
      (record { attached = v.attached; connected = v.connected; queue = v.queue; log = v.log }),
)

module _ (codec : Codec) where
  pub settle-send :
      (nsp : Bytes) (p p' : Packet) (s : Socket) (c : Client) (calls : List Payload)
      → s.log ≡ send p ∷ []
      → encode codec c.packet_mgr p false ≡ ok (p', calls)
      → settle codec nsp s c
        ≡ ok (record c {
          sockets = put nsp (record s { log = [] }) c.sockets;
          next_id = s.next_id;
          log = c.log ++ dispatch_sends calls;
        })
  unfolding settle perform_all perform send_out
  settle-send nsp p p' s c calls e encodes = rw (e, encodes) refl

  pub on_socket-found :
      (nsp : Bytes) (method : Socket → Result Socket) (s s' : Socket) (c : Client)
      → find nsp c.sockets ≡ some s
      → method (record s { next_id = c.next_id }) ≡ ok s'
      → on_socket codec nsp method c ≡ settle codec nsp s' c
  unfolding on_socket
  on_socket-found nsp method s s' c e f = rw (on_socket, e, f) refl

module _ (codec : Codec) (invoke : ℕ → Event → Socket → Event × Socket) (casts : CastsInt codec)
    (counts : CastsUnsigned codec) where
  -- The casts read back what the streams write, and the JSON library carries the event (well formed, with
  -- fewer than 2^31 binaries). Client a is open and has an encode callback and a next id below 2^31, and its
  -- socket s of the namespace (the root or of Nsp's form) is connected with nothing left to send. Client b
  -- has a decode callback and waits for no attachment, and its attached socket t of the namespace has a
  -- listener of the event. `emit` on s, with or without a callback, returns and dispatches payloads, which a
  -- then has websocketpp send, in order. Client b, which these payloads reach in that order, hands the event,
  -- with its name and all its messages, to the listener, acknowledges it with what the listener leaves if
  -- there is a callback, and does what t asks of it.
  pub event_crosses :
      (nsp nsp' name : Bytes) (ms : List Ptr) (callback : Option ℕ) (l : ℕ) (a b : Client)
      (s t : Socket)
      → Carries codec (to_event_message name ms)
      → Nsp nsp nsp'
      → WellFormedItems (of_list ms)
      → length (binaries (to_event_message name ms)) < 2 ^ 31
      → a.packet_mgr.has_encode_callback ≡ true
      → is_opened a.con_state ≡ true
      → a.next_id < 2 ^ 31
      → find nsp a.sockets ≡ some s
      → s.nsp ≡ nsp
      → IsReady s
      → b.packet_mgr.has_decode_callback ≡ true
      → b.packet_mgr.partial_packet ≡ none
      → find nsp' b.sockets ≡ some t
      → t.nsp ≡ nsp'
      → t.attached ≡ true
      → find name t.bindings ≡ some l
      → (a' : Client) × (calls : List Payload) × (on_socket codec nsp (emit name ms callback) a
          ≡ ok a')
        × (a'.log ≡ a.log ++ dispatch_sends calls)
        × ((send_each calls a').log ≡ a'.log ++ sent (delay a) calls)
        × (on_messages codec invoke (transmitted (sent (delay a) calls)) b ≡ (
            answered invoke l nsp' name ms
              (event_id callback a.next_id)
              (record t { next_id = b.next_id })
            >>= λ t'. settle codec nsp' t' (record b {
              packet_mgr = record b.packet_mgr { partial_packet = none };
              log = b.log ++ heard (patience b) (transmitted (sent (delay a) calls));
            })))
  unfolding to_event_message
  event_crosses nsp nsp' name ms callback l a b s t carries ns w small encodes up low at_a named
        ready decodes idle at_b named' attached bound =
      let s1 : Socket = record s { next_id = a.next_id } in
      let t1 : Socket = record t { next_id = b.next_id } in
      let i : ℤ = event_id callback a.next_id in
      let m = to_event_message name ms in
      let (p, s2, made, emitted, asked) =
        emit-IsReady name ms callback s1
          (record {
            attached = ready.attached;
            connected = ready.connected;
            queue = ready.queue;
            log = ready.log;
          })
          low in
      let (calls, encoded, _, arrives) =
        put_all-encode codec a.packet_mgr b.packet_mgr false s.nsp nsp' m i p casts counts carries
          encodes decodes idle (subst (λ x. Nsp x nsp') (sym named) ns)
          (event_id-PackId callback a.next_id low) (tt, w) small made in
      let wire : transmitted (sent (delay a) calls) ≡ payloads calls =
        transmitted-sent_from a.has_ping_timer a.ping_interval calls in
      let after : List Bytes → Client = λ fs. record b {
        packet_mgr = record b.packet_mgr { partial_packet = none };
        log = b.log ++ heard (patience b) fs;
      } in
      let a' : Client = record a {
        sockets = put nsp (record s2 { log = [] }) a.sockets;
        next_id = s2.next_id;
        log = a.log ++ dispatch_sends calls;
      } in
      (
        a',
        calls,
        on_socket-found codec nsp (emit name ms callback) s s2 a at_a emitted
            ∙ settle-send codec nsp p _ s2 a calls asked encoded,
        refl,
        ap (λ (c : Client). c.log) (send_each-sent calls a' up),
        subst
            (λ fs.
              on_messages codec invoke fs b
              ≡ (answered invoke l nsp' name ms i t1 >>= λ t'. settle codec nsp' t' (after fs)))
            (sym wire)
            (on_messages-Completes codec invoke _ (delivered false nsp' i m) b.packet_mgr
                (payloads calls) b arrives refl refl
              ∙ deliver-found codec invoke (delivered false nsp' i m) t (after (payloads calls))
                  at_b
              ∙ ap (λ r. r >>= λ t'. settle codec nsp' t' (after (payloads calls)))
                  (on_event-delivered invoke nsp' name ms i l t1 attached named' bound w)),
      )
