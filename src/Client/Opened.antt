-- ===== src/Client/Opened.antt =====
-- A connection that opens: `on_open` of sio_client_impl.cpp.
use taquin_client_project.Base.{
  ℕ, ltb, length, pos, negsuc, to_string, ◌≡◌, refl, arith, ap, ◌∙◌, Bytes, codes, bytes_eq, true,
  false, if◌then◌else◌, Bool-cases, Option-cases, inl, inr, none, some, List, [], ◌∷◌, ◌++◌,
  append-nil, append_assoc,
}
use taquin_client_project.Base.SortedMap.{find, put, find-put, bytes_key}
use taquin_client_project.Result.{ok, ◌>>=◌}
use taquin_client_project.Message.{nullptr}
use taquin_client_project.Packet.{
  Codec, typed_packet, type_connect, accept, accept_json, header, binary_type, determined,
}
use taquin_client_project.Packet.Manager.{Manager, encode}
use taquin_client_project.Socket
use taquin_client_project.Socket.{Socket, create, send_connect, send, arm, connection_timeout}
use taquin_client_project.Client.{
  Client, Effect, con_opened, dispatch_send, dispatch_sends, from_socket, call_listener, if_set,
  settle, send_out, perform, perform_all, tell, socket, is_opened, normal_nsp,
}
use taquin_client_project.Client.Sockets.{
  IsRegistry, Settles, told, after_each, sockets_invoke_void-told, settle-quiet, put-IsRegistry,
}
use taquin_client_project.Client.Registry.{
  create-fields, create-log_root, socket-found, socket-made,
}
use taquin_client_project.Client.Connection.{on_open}

-- A socket of a namespace other than the root asks to be connected, and has 20 seconds for the answer.
abbrev pub asks_connect : Bytes → Socket → List Effect
asks_connect key s =
    if s.attached
    then (if bytes_eq s.nsp (codes "/")
        then []
        else dispatch_send false (codes "40" ++ s.nsp)
          ∷ from_socket key (arm connection_timeout 20000)
          ∷ [])
    else []

-- What the sockets of a client ask, in the order of the map.
abbrev pub announcements : List (Bytes × Socket) → List Effect
announcements [] = []
announcements ((key, s) ∷ rest) = asks_connect key s ++ announcements rest

told-announcements : (id : ℕ) (m : List (Bytes × Socket)) → told asks_connect id m ≡ announcements m
told-announcements id [] = refl
told-announcements id ((key, s) ∷ rest) =
    ap (◌++◌ (asks_connect key s)) (told-announcements id rest)

header-connect :
    (nsp : Bytes)
    → bytes_eq nsp (codes "/") ≡ false
    → header (pos 0) [] nsp (negsuc 0) false ++ [] ≡ codes "0" ++ nsp
unfolding header to_string
header-connect [] other = refl
header-connect (ch ∷ nsp) other =
    let long : ltb 0 (length (ch ∷ nsp)) ≡ true = ground arith in
    rw (other, long) (simp (append-nil))

module _ (codec : Codec) where
  send_out-connect_to :
      (nsp : Bytes) (c : Client)
      → c.packet_mgr.has_encode_callback ≡ true
      → bytes_eq nsp (codes "/") ≡ false
      → send_out codec (typed_packet type_connect nsp nullptr) c
        ≡ ok (tell c (dispatch_send false (codes "40" ++ nsp) ∷ []))
  unfolding send_out encode accept accept_json typed_packet binary_type determined
  send_out-connect_to nsp c e other =
      let text : Bytes = b'4' ∷ (header (pos 0) [] nsp (negsuc 0) false ++ []) in
      ap (λ b. ok (tell c (dispatch_sends (if b then (false, text) ∷ [] else [])))) e
      ∙ ap (λ text. ok (tell c (dispatch_send false (b'4' ∷ text) ∷ []))) (header-connect nsp other)

  on_open-Settles :
      (m : Manager) → m.has_encode_callback ≡ true → Settles codec m Socket.on_open asks_connect
  unfolding Socket.on_open send_connect settle perform perform_all
  on_open-Settles m e nsp s c same empty id = elim (Bool-cases s.attached) [
    | inr gone ↦ rw (gone, empty, id) (simp (append-nil))
    | inl there ↦ elim (Bool-cases (bytes_eq s.nsp (codes "/"))) [
      | inl root ↦ rw (there, root, empty, id) (simp (append-nil))
      | inr other ↦
          rw (there, other, empty, id)
            (ap (λ r. r >>= λ x. perform codec nsp (arm connection_timeout 20000) x)
                (send_out-connect_to s.nsp _ (ap (λ k. k.has_encode_callback) same ∙ e) other)
              ∙ ap
                  (λ log. ok (record c {
                    sockets =
                        put nsp
                          (record s {
                            attached = true;
                            timer = true;
                            next_id = c.next_id;
                            log = [];
                          })
                          c.sockets;
                    log = log;
                  }))
                  (append_assoc c.log (dispatch_send false (codes "40" ++ s.nsp) ∷ []) _))
    ]
  ]

  -- The root socket of an open client: the one stored, or a new one that has nothing to ask.
  root_socket :
      (c : Client)
      → c.con_state ≡ con_opened
      → IsRegistry c.sockets
      → (sockets : List (Bytes × Socket)) × (s : Socket) × (socket codec [] c
          ≡ ok (record c { sockets = sockets }))
        × IsRegistry sockets
        × (find (codes "/") sockets ≡ some s)
        × ((k : Bytes) → bytes_eq (codes "/") k ≡ false → find k sockets ≡ find k c.sockets)
  unfolding normal_nsp bytes_eq
  root_socket c up r = elim (Option-cases (find (codes "/") c.sockets)) [
    | inr (s, there) ↦ (c.sockets, s, socket-found codec [] c s there, r, there, λ k other. refl)
    | inl missing ↦
        let made : Socket = create true true (codes "/") c.next_id in
        let s : Socket = record made { log = [] } in
        (
          put (codes "/") s c.sockets,
          s,
          socket-made codec [] c _ missing (
              ap
                (λ state.
                  settle codec (codes "/") (create true (is_opened state) (codes "/") c.next_id) c)
                up
              ∙ settle-quiet codec (codes "/") made c (create-log_root (codes "/") c.next_id refl)
                  (create-fields true (codes "/") c.next_id).1),
          put-IsRegistry (codes "/") s c.sockets refl r,
          find-put (codes "/") (codes "/") s c.sockets,
          λ k other. rw (find-put (codes "/") k s c.sockets, other) refl,
        )
  ]

  -- The client has its encode callback, and its sockets form a registry. Then `on_open` returns: the client
  -- is open, with its connection and no reconnects made; its sockets form a registry, with one for the root
  -- namespace; under every other key is the socket that was there, if any, after its `on_open`. The log has,
  -- in the order of the map, for each socket that is attached and not of the root namespace the text "40"
  -- and the namespace, dispatched, and its timer of 20 seconds, then the open listener, and nothing else.
  pub on_open-announcements :
      (c : Client)
      → c.packet_mgr.has_encode_callback ≡ true
      → IsRegistry c.sockets
      → (sockets : List (Bytes × Socket)) × (s : Socket) × (on_open codec c
          ≡ ok (record c {
            con_state = con_opened;
            con = true;
            reconn_made = 0;
            sockets = sockets;
            log = (c.log ++ announcements c.sockets) ++ if_set c.open_listener call_listener;
          }))
        × IsRegistry sockets
        × (find (codes "/") sockets ≡ some s)
        × ((k : Bytes)
            → bytes_eq (codes "/") k ≡ false
            → find k sockets ≡ after_each Socket.on_open c.next_id (find k c.sockets) none)
  unfolding on_open
  on_open-announcements c e r =
      let up : Client = record c { con_state = con_opened; con = true; reconn_made = 0 } in
      let (invoked, runs, kept, found) =
        sockets_invoke_void-told codec c.packet_mgr Socket.on_open asks_connect
          (on_open-Settles c.packet_mgr e) up refl r in
      let asked : Client = record up {
        sockets = invoked;
        log = c.log ++ told asks_connect c.next_id c.sockets;
      } in
      let (sockets, s, rooted, registry, root, others) = root_socket asked refl kept in
      (
        sockets,
        s,
        ap
              (λ o. o >>= socket codec [] >>= λ c'.
                ok (tell c' (if_set c'.open_listener call_listener)))
              runs
            ∙ ap (λ o. o >>= λ c'. ok (tell c' (if_set c'.open_listener call_listener))) rooted
            ∙ ap
                (λ said. ok (record up {
                  sockets = sockets;
                  log = (c.log ++ said) ++ if_set c.open_listener call_listener;
                }))
                (told-announcements c.next_id c.sockets),
        registry,
        root,
        λ k other. others k other ∙ found k,
      )
