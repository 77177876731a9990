-- ===== src/Client/Request.antt =====
-- `emit` with a callback on a socket of one client, the listener of a socket of another, and its answer on the
-- way back.
use taquin_client_project.Base.{
  ℕ, ◌==◌, ◌≡◌, refl, ap, sym, subst, ◌∙◌, pos, Bytes, bytes_eq_refl, true, false, if◌then◌else◌,
  none, some, List, [], ◌∷◌, ◌++◌,
}
use taquin_client_project.Base.SortedMap.{find, put, find-put, bytes_key, nat_key, ==_refl}
use taquin_client_project.Result.{ok}
use taquin_client_project.Message.{Ptr}
use taquin_client_project.Message.Lists.{to_event_message, to_array_message}
use taquin_client_project.Packet.{Codec}
use taquin_client_project.Packet.Manager.{Payload}
use taquin_client_project.Packet.Body.{some_id, CastsInt}
use taquin_client_project.Packet.Head.{Nsp, CastsUnsigned}
use taquin_client_project.Packet.Receive.{Completes}
use taquin_client_project.Packet.RoundTrip.{delivered, payloads, put_all-encode}
use taquin_client_project.Socket.{Socket, Event, send, call_ack, create_event, emit, ack}
use taquin_client_project.Client.{Client, dispatch_sends, from_socket}
use taquin_client_project.Client.Wire.{
  on_socket, send_each, send_each-sent, sent, delay, transmitted, heard, patience, on_messages,
  transmitted-sent_from,
}
use taquin_client_project.Client.Crossing.{IsReady, settle-send, on_socket-found}
use taquin_client_project.Client.Answering.{
  asking, emit-asking, ack-IsReady, erase-put, IsSpeaker, IsCarried, rested, answer_sent,
  called_back,
}

module _ (codec : Codec) (invoke : ℕ → Event → Socket → Event × Socket) (nsp : Bytes) where
  -- The casts read back what the streams write, and the namespace is the root or of Nsp's form. Two open
  -- clients, each with both callbacks and waiting for no attachment, have a connected socket of it with
  -- nothing left to send, and a next id below 2^31. The JSON library carries the event and the reply (well
  -- formed, with fewer than 2^31 binaries). The listener that t has for the event leaves the reply as its
  -- answer, and its socket connected with nothing left to send. Then `emit` with a callback on s returns and
  -- dispatches payloads, which a has websocketpp send; b, which they reach in order, returns, dispatches
  -- others and has them sent; and a, which these reach in order, calls the callback with the reply, once, and
  -- forgets it. Its other callbacks are as they were before, and the logs have nothing else but the timers
  -- that a message puts off.
  pub answer_returns :
      (name : Bytes) (ms reply : List Ptr) (callback l : ℕ) (a b : Client) (s t t' : Socket)
      (ev : Event)
      → CastsInt codec
      → CastsUnsigned codec
      → Nsp nsp nsp
      → IsSpeaker nsp a s
      → IsSpeaker nsp b t
      → IsCarried codec (to_event_message name ms)
      → IsCarried codec (to_array_message reply)
      → find name t.bindings ≡ some l
      → invoke l (create_event nsp name ms true) (record t { next_id = b.next_id }) ≡ (ev, t')
      → ev.ack_message ≡ reply
      → t'.nsp ≡ nsp
      → IsReady t'
      → (a1 b1 a2 : Client) × (calls replies : List Payload) × (s2 : Socket) × (on_socket codec nsp
            (emit name ms (some callback))
            a
          ≡ ok a1)
        × (a1.log ≡ a.log ++ dispatch_sends calls)
        × ((send_each calls a1).log ≡ a1.log ++ sent (delay a) calls)
        × (on_messages codec invoke (transmitted (sent (delay a) calls)) b ≡ ok b1)
        × (b1.log
            ≡ (b.log ++ heard (patience b) (transmitted (sent (delay a) calls)))
              ++ dispatch_sends replies)
        × ((send_each replies b1).log ≡ b1.log ++ sent (delay b) replies)
        × (on_messages codec invoke (transmitted (sent (delay b) replies)) (send_each calls a1)
            ≡ ok a2)
        × (a2.log
            ≡ ((send_each calls a1).log
                ++ heard (patience a) (transmitted (sent (delay b) replies)))
              ++ from_socket nsp (call_ack callback reply) ∷ [])
        × (find nsp a2.sockets ≡ some s2)
        × ((k : ℕ) → find k s2.acks ≡ (if a.next_id == k then none else find k s.acks))
  unfolding to_event_message to_array_message
  answer_returns name ms reply callback l a b s t t' ev casts counts plain va vb event answer bound
        called left named ready =
      let i : ℕ = a.next_id in
      let s1 : Socket = record s { next_id = i } in
      let (p, made, emitted) =
        emit-asking name ms callback s1
          (record {
            attached = va.ready.attached;
            connected = va.ready.connected;
            queue = va.ready.queue;
            log = va.ready.log;
          })
          va.low in
      let (calls, encoded, _, arrives) =
        put_all-encode codec a.packet_mgr b.packet_mgr false s.nsp nsp (to_event_message name ms)
          (pos i) p casts counts event.carries va.encodes vb.decodes vb.idle
          (subst (λ x. Nsp x nsp) (sym va.named) plain) (some_id i va.low) event.well_formed
          event.small made in
      let (p2, made2, acked) = ack-IsReady i reply t' ready in
      let (replies, encoded2, _, arrives2) =
        put_all-encode codec (rested b.packet_mgr) a.packet_mgr true t'.nsp nsp
          (to_array_message reply) (pos i) p2 casts counts answer.carries vb.encodes va.decodes
          va.idle (subst (λ x. Nsp x nsp) (sym named) plain) (some_id i va.low) answer.well_formed
          answer.small made2 in
      let there : transmitted (sent (delay a) calls) ≡ payloads calls =
        transmitted-sent_from a.has_ping_timer a.ping_interval calls in
      let back : transmitted (sent (delay b) replies) ≡ payloads replies =
        transmitted-sent_from b.has_ping_timer b.ping_interval replies in
      let (b1, hears, told, replied) =
        answer_sent codec invoke nsp name ms reply i l p2 _ b t t' ev
          (transmitted (sent (delay a) calls)) replies
          (subst
            (Completes codec (rested b.packet_mgr)
              (delivered false nsp (pos i) (to_event_message name ms)) b.packet_mgr)
            (sym there) arrives)
          event.well_formed.1 vb.stored vb.named vb.ready.attached bound called
          (subst (λ r. ack (pos i) r t' ≡ ok (record t' { log = send p2 ∷ [] })) (sym left) acked)
          encoded2 vb.up in
      let waiting : Socket = record (asking p callback s1) { log = [] } in
      let a1 : Client = record a {
        sockets = put nsp waiting a.sockets;
        next_id = waiting.next_id;
        log = a.log ++ dispatch_sends calls;
      } in
      let sends = send_each-sent calls a1 va.up in
      let a1' : Client = record a1 { log = a1.log ++ sent (delay a) calls } in
      let (a2, hears2, told2, kept) =
        called_back codec invoke nsp reply i callback a1' waiting
          (transmitted (sent (delay b) replies))
          (subst
            (Completes codec (rested a.packet_mgr)
              (delivered true nsp (pos i) (to_array_message reply)) a.packet_mgr)
            (sym back) arrives2)
          (rw (find-put nsp nsp waiting a.sockets, bytes_eq_refl nsp) refl) va.named
          va.ready.attached refl (rw (find-put i i callback s.acks, ==_refl i) refl) in
      (
        a1,
        b1,
        a2,
        calls,
        replies,
        _,
        on_socket-found codec nsp (emit name ms (some callback)) s (asking p callback s1) a
              va.stored emitted
            ∙ settle-send codec nsp p _ (asking p callback s1) a calls refl encoded,
        refl,
        ap (λ (c : Client). c.log) sends,
        hears,
        told,
        replied,
        ap (on_messages codec invoke (transmitted (sent (delay b) replies))) sends ∙ hears2,
        told2
            ∙ ap
                (λ (c : Client).
                  (c.log ++ heard (patience a) (transmitted (sent (delay b) replies)))
                  ++ from_socket nsp (call_ack callback reply) ∷ [])
                (sym sends),
        kept,
        λ k. erase-put i k callback s.acks,
      )
