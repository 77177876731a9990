-- ===== src/Client/Wire.antt =====
-- An event on its way from `emit` on a socket of one client (sio_client_impl.cpp) to a socket of another.
use taquin_client_project.Base.{
  ℕ, ◌≡◌, refl, ap, sym, ◌∙◌, pos, Bytes, Bool, true, false, Bool-cases, inl, inr, if◌then◌else◌,
  none, some, List, [], ◌∷◌, ◌++◌, append_assoc, append-nil,
}
use taquin_client_project.Base.SortedMap.{find, nat_key, bytes_key}
use taquin_client_project.Result.{Result, ok, ◌>>=◌}
use taquin_client_project.Packet.{Packet, Codec}
use taquin_client_project.Packet.Manager.{Manager, Payload, put_payload}
use taquin_client_project.Packet.Receive.{Completes, completes, silent}
use taquin_client_project.Packet.RoundTrip.{payloads}
use taquin_client_project.Socket.{Socket, Event}
use taquin_client_project.Socket.Messages.{on_message_packet}
use taquin_client_project.Client.{
  Client, is_opened, Effect, transmit, arm_timer, ping_timer, ping_timeout_timer, settle,
}
use taquin_client_project.Client.Connection.{send_impl}
use taquin_client_project.Client.Incoming.{deliver, on_decode, on_decode_all, on_message}

module _ (codec : Codec) where
  -- A method of a stored socket, and what it asks of its client.
  unfoldable pub on_socket : Bytes → (Socket → Result Socket) → Client → Result Client
  on_socket nsp method c = elim (find nsp c.sockets) [
    | none ↦ ok c
    | some s ↦ method (record s { next_id = c.next_id }) >>= λ s'. settle codec nsp s' c
  ]

-- The sends that were dispatched, in order.
unfoldable pub send_each : List Payload → Client → Client
unfolding send_impl
send_each [] c = c
send_each ((is_binary, s) ∷ rest) c = send_each rest (send_impl is_binary s c)

-- What is put off where the pings run: by a message that is sent, and by one that arrives.
abbrev pub delay : Client → List Effect
delay c = if c.has_ping_timer then arm_timer ping_timer c.ping_interval ∷ [] else []

abbrev pub patience : Client → List Effect
patience c =
    if c.has_ping_timeout_timer then arm_timer ping_timeout_timer c.ping_timeout ∷ [] else []

-- What an open client has websocketpp send, each payload behind some effects.
unfoldable pub sent : List Effect → List Payload → List Effect
sent before [] = []
sent before ((is_binary, s) ∷ rest) = before ++ (transmit is_binary s ∷ sent before rest)

-- The payloads that websocketpp is given.
unfoldable pub transmitted : List Effect → List Bytes
transmitted [] = []
transmitted (transmit is_binary s ∷ log) = s ∷ transmitted log
transmitted (e ∷ log) = transmitted log

pub transmitted-sent_from :
    (b : Bool) (ms : ℕ) (calls : List Payload)
    → transmitted (sent (if b then arm_timer ping_timer ms ∷ [] else []) calls) ≡ payloads calls
unfolding transmitted sent
transmitted-sent_from b ms [] = refl
transmitted-sent_from true ms ((is_binary, s) ∷ rest) =
    ap (◌∷◌ s) (transmitted-sent_from true ms rest)
transmitted-sent_from false ms ((is_binary, s) ∷ rest) =
    ap (◌∷◌ s) (transmitted-sent_from false ms rest)

send_impl-open :
    (is_binary : Bool) (s : Bytes) (c : Client)
    → is_opened c.con_state ≡ true
    → send_impl is_binary s c ≡ record c { log = c.log ++ (delay c ++ transmit is_binary s ∷ []) }
unfolding send_impl
send_impl-open is_binary s c up = rw up refl

pub send_each-sent :
    (calls : List Payload) (c : Client)
    → is_opened c.con_state ≡ true
    → send_each calls c ≡ record c { log = c.log ++ sent (delay c) calls }
unfolding send_each sent
send_each-sent [] c up = ap (λ log. record c { log = log }) (sym (append-nil c.log))
send_each-sent ((is_binary, s) ∷ rest) c up =
    let one : List Effect = delay c ++ transmit is_binary s ∷ [] in
    let more : List Effect = sent (delay c) rest in
    ap (send_each rest) (send_impl-open is_binary s c up)
    ∙ send_each-sent rest (record c { log = c.log ++ one }) up
    ∙ ap (λ log. record c { log = log })
        (append_assoc c.log one more
          ∙ ap (◌++◌ c.log) (append_assoc (delay c) (transmit is_binary s ∷ []) more))

-- What a client logs when messages arrive.
unfoldable pub heard : List Effect → List Bytes → List Effect
heard each [] = []
heard each (s ∷ rest) = each ++ heard each rest

pub bind-ok : (r : Result Client) → (r >>= λ c. ok c) ≡ r
bind-ok (ok c) = refl
bind-ok (Result.err e) = refl

module _ (codec : Codec) (invoke : ℕ → Event → Socket → Event × Socket) where
  -- Messages in the order in which they arrive.
  unfoldable pub on_messages : List Bytes → Client → Result Client
  unfolding on_message
  on_messages [] c = ok c
  on_messages (s ∷ rest) c = on_message codec invoke s c >>= on_messages rest

  pub on_message-put :
      (s : Bytes) (c : Client) (m : Manager) (ps : List Packet)
      → put_payload codec c.packet_mgr s ≡ ok (m, ps)
      → on_message codec invoke s c
        ≡ on_decode_all codec invoke ps (record c { packet_mgr = m; log = c.log ++ patience c })
  unfolding on_message
  on_message-put s c m ps e = elim (Bool-cases c.has_ping_timeout_timer) [
    | inl waits ↦ rw (waits, e) refl
    | inr other ↦ rw (other, e, append-nil c.log) refl
  ]

  on_decode_all-event :
      (q : Packet) (c : Client)
      → q.frame ≡ pos 4
      → on_decode_all codec invoke (q ∷ []) c ≡ deliver codec invoke q c
  unfolding on_decode_all on_decode
  on_decode_all-event q c e = rw e (bind-ok (deliver codec invoke (record q { frame = pos 4 }) c))

  pub on_messages-Completes :
      (m : Manager) (q : Packet) (r : Manager) (fs : List Bytes) (c : Client)
      → Completes codec m q r fs
      → c.packet_mgr ≡ r
      → q.frame ≡ pos 4
      → on_messages fs c
        ≡ deliver codec invoke q (record c { packet_mgr = m; log = c.log ++ heard (patience c) fs })
  unfolding on_messages heard on_decode_all
  on_messages-Completes m q r fs c (completes _ s one) same e =
      let on = λ (log : List Effect). record c { packet_mgr = m; log = log } in
      let now : Client = on (c.log ++ patience c) in
      ap (λ r. r >>= on_messages [])
        (on_message-put s c m (q ∷ []) (rw same one) ∙ on_decode_all-event q now e)
      ∙ bind-ok (deliver codec invoke q now)
      ∙ ap (λ each. deliver codec invoke q (on (c.log ++ each))) (sym (append-nil (patience c)))
  on_messages-Completes m q r fs c (silent _ r1 s rest one h) same e =
      let later : List Effect = heard (patience c) rest in
      let now : Client = record c { packet_mgr = r1; log = c.log ++ patience c } in
      ap (λ r. r >>= on_messages rest) (on_message-put s c r1 [] (rw same one))
      ∙ on_messages-Completes m q r1 rest now h refl e
      ∙ ap (λ log. deliver codec invoke q (record c { packet_mgr = m; log = log }))
          (append_assoc c.log (patience c) later)

  pub deliver-found :
      (q : Packet) (t : Socket) (c : Client)
      → find q.nsp c.sockets ≡ some t
      → deliver codec invoke q c ≡ (
          on_message_packet invoke q (record t { next_id = c.next_id }) >>= λ t'.
          settle codec q.nsp t' c)
  unfolding deliver
  deliver-found q t c e = rw (deliver, e) refl
