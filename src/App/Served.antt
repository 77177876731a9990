-- ===== src/App/Served.antt =====
-- main.cpp on the wire: an event of the server, its handler, and what the handler sends, in the server's hands.
use taquin_client_project.Base.{
  ◌≡◌, ◌≢◌, refl, ap, sym, subst, ◌∙◌, true, false, none, negsuc, Bytes, codes, List, [], ◌∷◌, ◌++◌,
}
use taquin_client_project.Result.{ok, ◌>>=◌}
use taquin_client_project.Message.{Ptr, ptr}
use taquin_client_project.Message.Lists.{from_text, to_event_message}
use taquin_client_project.Packet.{Packet, Codec, message_packet}
use taquin_client_project.Packet.Body.{no_id, CastsInt}
use taquin_client_project.Packet.Head.{Nsp, root, CastsUnsigned}
use taquin_client_project.Packet.Manager.{Manager, Payload, encode, put_all}
use taquin_client_project.Packet.RoundTrip.{delivered, payloads, put_all-encode}
use taquin_client_project.Socket
use taquin_client_project.Socket.{Socket, create_event, get_message}
use taquin_client_project.Socket.Delivery.{on_event-delivered}
use taquin_client_project.Client.{Client, dispatch_sends, settle}
use taquin_client_project.Client.Wire.{
  heard, patience, on_messages, on_messages-Completes, deliver-found,
}
use taquin_client_project.Client.Crossing.{settle-send}
use taquin_client_project.Client.Answering.{IsSpeaker, IsCarried, rested}
use taquin_client_project.App.{App, Effect, Event, login, handle}
use taquin_client_project.App.Steps.{sent}
use taquin_client_project.App.Wired.{
  topic, listener, bind_events, bind_events-topic, invoke_app, invoke_app-one,
}

module _ (codec : Codec) (casts : CastsInt codec) (counts : CastsUnsigned codec) where
  -- The casts read back what the streams write. The server's packet manager has both callbacks and waits for
  -- no attachment. The client is open with a next id below 2^31, has both callbacks and waits for no
  -- attachment, and its root socket, on which `bind_events` was called, is connected with nothing left to
  -- send. The JSON library carries an event that is bound and the one that its handler sends (well formed,
  -- with fewer than 2^31 binaries). Where the handler of the event, with its first message or none, returns
  -- and sends one text, the payloads that the server encodes make the client dispatch payloads from which the
  -- server decodes that one event, for the root namespace and without an id, and nothing else; the client's
  -- log has nothing more but the timers that a message puts off.
  pub reply_on_wire :
      (a a' : App) (e : Event) (did : List Effect) (name text : Bytes) (ms : List Ptr) (c : Client)
      (s : Socket) (server : Manager) (p : Packet)
      → e ≢ login
      → IsSpeaker (codes "/") c (bind_events s)
      → server.has_encode_callback ≡ true
      → server.has_decode_callback ≡ true
      → server.partial_packet ≡ none
      → IsCarried codec (to_event_message (topic e) ms)
      → IsCarried codec (to_event_message name (from_text text))
      → message_packet (codes "/") (ptr (to_event_message (topic e) ms)) (negsuc 0) false ≡ ok p
      → handle e a (get_message (create_event (codes "/") (topic e) ms false)) ≡ ok (a', did)
      → sent did ≡ (name, text) ∷ []
      → (p' : Packet) × (calls replies : List Payload) × (c' : Client) × (encode codec server p
            false
          ≡ ok (p', calls))
        × (on_messages codec (invoke_app a) (payloads calls) c ≡ ok c')
        × (c'.log ≡ (c.log ++ heard (patience c) (payloads calls)) ++ dispatch_sends replies)
        × (put_all codec server (payloads replies)
            ≡ ok (
              rested server,
              delivered false (codes "/") (negsuc 0) (to_event_message name (from_text text)) ∷ [],
            ))
  unfolding to_event_message
  reply_on_wire a a' e did name text ms c s server p other v encodes decodes idle event reply made
        handled one =
      let t1 : Socket = record (bind_events s) { next_id = c.next_id } in
      let m = to_event_message (topic e) ms in
      let (calls, encoded, _, arrives) =
        put_all-encode codec server c.packet_mgr false (codes "/") (codes "/") m (negsuc 0) p casts
          counts event.carries encodes v.decodes v.idle root no_id event.well_formed event.small
          made in
      let (p2, s2, made2, invoked, asked) =
        invoke_app-one a a' e (create_event (codes "/") (topic e) ms false) did name text t1 handled
          one
          (record {
            attached = v.ready.attached;
            connected = v.ready.connected;
            queue = v.ready.queue;
            log = v.ready.log;
          })
          v.low in
      let (replies, encoded2, puts, _) =
        put_all-encode codec (rested c.packet_mgr) server false (bind_events s).nsp (codes "/")
          (to_event_message name (from_text text)) (negsuc 0) p2 casts counts reply.carries
          v.encodes decodes idle (subst (λ x. Nsp x (codes "/")) (sym v.named) root) no_id
          reply.well_formed reply.small made2 in
      let q : Packet = delivered false (codes "/") (negsuc 0) m in
      let now : Client = record c {
        packet_mgr = rested c.packet_mgr;
        log = c.log ++ heard (patience c) (payloads calls);
      } in
      (
        _,
        calls,
        replies,
        _,
        encoded,
        on_messages-Completes codec (invoke_app a) (rested c.packet_mgr) q c.packet_mgr
              (payloads calls) c arrives refl refl
            ∙ deliver-found codec (invoke_app a) q (bind_events s) now v.stored
            ∙ ap (λ r. r >>= λ u. settle codec (codes "/") u now)
                (on_event-delivered (invoke_app a) (codes "/") (topic e) ms (negsuc 0) (listener e)
                    t1 v.ready.attached v.named (bind_events-topic e s other) event.well_formed.1
                  ∙ ap (λ (r : Socket.Event × Socket). ok r.1) invoked)
            ∙ settle-send codec (codes "/") p2 _ s2 now replies asked encoded2,
        refl,
        puts,
      )
