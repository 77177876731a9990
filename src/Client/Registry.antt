-- ===== src/Client/Registry.antt =====
-- `client_impl::socket` of sio_client_impl.cpp: the sockets that it makes and finds.
use taquin_client_project.Base.{
  ℕ, Bytes, codes, bytes_eq, bytes_eq_iff, bytes_eq_refl, Bool, true, false, Bool-cases,
  Option-cases, inl, inr, none, some, List, [], ◌∷◌, ◌++◌, ◌≡◌, ◌⊎◌, refl, arith, if◌then◌else◌,
}
use taquin_client_project.Base.SortedMap.{find, put, find-put, bytes_key}
use taquin_client_project.Result.{ok}
use taquin_client_project.Message.{nullptr}
use taquin_client_project.Packet.{Codec, typed_packet, type_connect, accept, accept_json}
use taquin_client_project.Packet.Manager.{encode}
use taquin_client_project.Socket.{Socket, create, send_connect, send, arm, connection_timeout}
use taquin_client_project.Client.Sockets.{settle-quiet}
use taquin_client_project.Client.{
  Client, Effect, client_opened, from_socket, send_out, perform, perform_all, settle, normal_nsp,
  socket,
}

pub create-fields :
    (opened : Bool) (key : Bytes) (id : ℕ)
    → ((create true opened key id).nsp ≡ key) × ((create true opened key id).next_id ≡ id)
unfolding create send_connect
create-fields false key id = (refl, refl)
create-fields true key id = (ground arith, ground arith)

create-log_closed : (key : Bytes) (id : ℕ) → (create true false key id).log ≡ []
unfolding create
create-log_closed key id = refl

pub create-log_root :
    (key : Bytes) (id : ℕ) → bytes_eq key (codes "/") ≡ true → (create true true key id).log ≡ []
unfolding create send_connect
create-log_root key id e = rw e refl

create-log :
    (key : Bytes) (id : ℕ)
    → bytes_eq key (codes "/") ≡ false
    → (create true true key id).log
      ≡ send (typed_packet type_connect key nullptr) ∷ arm connection_timeout 20000 ∷ []
unfolding create send_connect
create-log key id e = rw e refl

module _ (codec : Codec) where
  -- A connect packet goes out.
  send_out-connect :
      (nsp : Bytes) (c : Client)
      → (log : List Effect) × (send_out codec (typed_packet type_connect nsp nullptr) c
          ≡ ok (record c { log = log }))
  unfolding send_out encode accept accept_json typed_packet
  send_out-connect nsp c = (_, refl)

  settle-connect :
      (key nsp : Bytes) (s : Socket) (c : Client)
      → s.log ≡ send (typed_packet type_connect nsp nullptr) ∷ arm connection_timeout 20000 ∷ []
      → s.next_id ≡ c.next_id
      → (log : List Effect) × (settle codec key s c
          ≡ ok (record c { sockets = put key (record s { log = [] }) c.sockets; log = log }))
  unfolding settle perform perform_all
  settle-connect key nsp s c e f =
      let (log, sent) =
        send_out-connect nsp
          (record c { sockets = put key (record s { log = [] }) c.sockets; next_id = s.next_id }) in
      (log ++ from_socket key (arm connection_timeout 20000) ∷ [], rw (e, sent, f) refl)

  -- A new socket is stored, and only the log is written besides.
  settle-create :
      (opened : Bool) (key : Bytes) (c : Client)
      → (log : List Effect) × (settle codec key (create true opened key c.next_id) c
          ≡ ok (record c {
            sockets = put key (record (create true opened key c.next_id) { log = [] }) c.sockets;
            log = log;
          }))
  settle-create false key c = (
    c.log,
    settle-quiet codec key (create true false key c.next_id) c (create-log_closed key c.next_id)
        (create-fields false key c.next_id).1,
  )
  settle-create true key c = elim (Bool-cases (bytes_eq key (codes "/"))) [
    | inl root ↦ (
      c.log,
      settle-quiet codec key (create true true key c.next_id) c (create-log_root key c.next_id root)
          (create-fields true key c.next_id).1,
    )
    | inr other ↦
        settle-connect key key (create true true key c.next_id) c (create-log key c.next_id other)
          (create-fields true key c.next_id).1
  ]

  pub socket-found :
      (nsp : Bytes) (c : Client) (s : Socket)
      → find (normal_nsp nsp) c.sockets ≡ some s
      → socket codec nsp c ≡ ok c
  unfolding socket
  socket-found nsp c s e = rw (socket, e) refl

  pub socket-made :
      (nsp : Bytes) (c c' : Client)
      → find (normal_nsp nsp) c.sockets ≡ none
      → settle codec (normal_nsp nsp) (create true (client_opened c) (normal_nsp nsp) c.next_id) c
        ≡ ok c'
      → socket codec nsp c ≡ ok c'
  unfolding socket
  socket-made nsp c c' e made = rw (socket, e) made

  -- `socket(nsp)` returns, with a socket under the key of the namespace: the one that was there, the client
  -- as it was, or a new one of that namespace. No other key is touched, and asking again with a spelling of
  -- the same namespace finds that socket and changes nothing.
  pub socket_once :
      (nsp again : Bytes) (c : Client)
      → normal_nsp again ≡ normal_nsp nsp
      → (c' : Client) × (s : Socket) × (socket codec nsp c ≡ ok c')
        × ((k : Bytes)
            → find k c'.sockets
              ≡ (if bytes_eq (normal_nsp nsp) k then some s else find k c.sockets))
        × (((find (normal_nsp nsp) c.sockets ≡ some s) × (c' ≡ c))
            ⊎ ((find (normal_nsp nsp) c.sockets ≡ none) × (s.nsp ≡ normal_nsp nsp)))
        × (socket codec again c' ≡ ok c')
  socket_once nsp again c e =
      let key = normal_nsp nsp in
      elim (Option-cases (find key c.sockets)) [
        | inl missing ↦
            let s : Socket = record (create true (client_opened c) key c.next_id) { log = [] } in
            let (log, made) = settle-create (client_opened c) key c in
            let found : find key (put key s c.sockets) ≡ some s =
              rw (find-put key key s c.sockets, bytes_eq_refl key) refl in
            (
              record c { sockets = put key s c.sockets; log = log },
              s,
              socket-made nsp c _ missing made,
              λ k. find-put key k s c.sockets,
              inr (missing, (create-fields (client_opened c) key c.next_id).0),
              socket-found again _ s (rw e found),
            )
        | inr (s, there) ↦ (
          c,
          s,
          socket-found nsp c s there,
          λ k. elim (Bool-cases (bytes_eq key k)) [
            | inl same ↦ rw (same, ← (bytes_eq_iff key k).0 same) there
            | inr other ↦ rw other refl
          ],
          inl (there, refl),
          socket-found again c s (rw e there),
        )
      ]
