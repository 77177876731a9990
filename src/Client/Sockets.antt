-- ===== src/Client/Sockets.antt =====
-- `sockets_invoke_void` of sio_client_impl.cpp for a method that asks nothing of the client.
use taquin_client_project.Base.{
  ℕ, Bytes, if◌then◌else◌, Option, none, some, List, [], ◌∷◌, ◌≡◌, refl, ◌∙◌, arith, bytes_eq, ◌++◌,
  append-nil, append_assoc, ap, sym, bytes_lt, bytes_eq_iff, bytes_eq_refl, Bool-cases, inl, inr,
}
use taquin_client_project.Base.SortedMap.{
  find, put, find-put, bytes_key, IsSorted, find-After, put-IsSorted,
}
use taquin_client_project.Result.{ok, ◌>>=◌}
use taquin_client_project.Packet.{Codec}
use taquin_client_project.Packet.Manager.{Manager}
use taquin_client_project.Socket.{Socket, on_disconnect}
use taquin_client_project.Client.{
  Client, Effect, settle, perform_all, invoke_each, sockets_invoke_void,
}

-- No stored socket has anything left to ask.
abbrev pub Quiet : List (Bytes × Socket) → Type 0
Quiet [] = Unit {0}
Quiet ((k, s) ∷ m) = (s.log ≡ []) × Quiet m

-- The sockets of a client: a `std::map`, of sockets with nothing left to ask.
abbrev pub IsRegistry : List (Bytes × Socket) → Type 0
IsRegistry m = IsSorted m × Quiet m

put-Quiet :
    (k : Bytes) (s : Socket) (m : List (Bytes × Socket)) → s.log ≡ [] → Quiet m → Quiet (put k s m)
unfolding put
put-Quiet k s [] e q = (e, tt)
put-Quiet k s ((j, t) ∷ m) e q = elim (Bool-cases (bytes_eq j k)) [
  | inl same ↦ rw same (e, q.1)
  | inr other ↦ elim (Bool-cases (bytes_lt k j)) [
    | inl before ↦ rw (other, before) (e, q)
    | inr after ↦ rw (other, after) (q.0, put-Quiet k s m e q.1)
  ]
]

pub put-IsRegistry :
    (k : Bytes) (s : Socket) (m : List (Bytes × Socket))
    → s.log ≡ []
    → IsRegistry m
    → IsRegistry (put k s m)
put-IsRegistry k s m e r = (put-IsSorted k s m r.0, put-Quiet k s m e r.1)

-- A method that asks nothing of its client and takes no id.
pub record AsksNothing (fn : Socket → Socket) : Type 0 where
  pub no_log : (s : Socket) → s.log ≡ [] → (fn s).log ≡ []
  pub no_id : (s : Socket) → (fn s).next_id ≡ s.next_id

pub on_disconnect-AsksNothing : AsksNothing on_disconnect
unfolding on_disconnect
on_disconnect-AsksNothing = record { no_log = λ s e. ground (arith, e); no_id = λ s. ground arith }

-- A stored socket after the method.
abbrev pub after_call : (Socket → Socket) → ℕ → Socket → Socket
after_call fn id s = record (fn (record s { next_id = id })) { log = [] }

abbrev pub after_each : (Socket → Socket) → ℕ → Option Socket → Option Socket → Option Socket
after_each fn id none before = before
after_each fn id (some s) before = some (after_call fn id s)

pub settle-quiet :
    (codec : Codec) (nsp : Bytes) (t : Socket) (c : Client)
    → t.log ≡ []
    → t.next_id ≡ c.next_id
    → settle codec nsp t c ≡ ok (record c { sockets = put nsp (record t { log = [] }) c.sockets })
unfolding settle perform_all
settle-quiet codec nsp t c e f = simp (e, f)

-- What a method has its client log for each socket, in the order of the map.
abbrev pub told : (Bytes → Socket → List Effect) → ℕ → List (Bytes × Socket) → List Effect
told says id [] = []
told says id ((nsp, s) ∷ rest) = says nsp (record s { next_id = id }) ++ told says id rest

told_nothing : (id : ℕ) (rest : List (Bytes × Socket)) → told (λ nsp s. []) id rest ≡ []
told_nothing id [] = refl
told_nothing id ((nsp, s) ∷ rest) = told_nothing id rest

-- What storing a socket after the method does to a client with this packet manager.
abbrev pub Settles : Codec → Manager → (Socket → Socket) → (Bytes → Socket → List Effect) → Type 0
Settles codec m fn says =
    (nsp : Bytes) (s : Socket) (c : Client)
    → c.packet_mgr ≡ m
    → s.log ≡ []
    → s.next_id ≡ c.next_id
    → settle codec nsp (fn s) c
      ≡ ok (record c {
        sockets = put nsp (record (fn s) { log = [] }) c.sockets;
        log = c.log ++ says nsp s;
      })

module _ (codec : Codec) (m : Manager) (fn : Socket → Socket) (says : Bytes → Socket → List Effect)
    (settles : Settles codec m fn says) where
  invoke_each-told :
      (rest : List (Bytes × Socket)) (c : Client)
      → c.packet_mgr ≡ m
      → IsRegistry rest
      → IsRegistry c.sockets
      → (sockets : List (Bytes × Socket)) × (invoke_each codec fn rest c
          ≡ ok (record c { sockets = sockets; log = c.log ++ told says c.next_id rest }))
        × IsRegistry sockets
        × ((k : Bytes) → find k sockets ≡ after_each fn c.next_id (find k rest) (find k c.sockets))
  unfolding invoke_each find
  invoke_each-told [] c e u r =
      (c.sockets, ap (λ log. ok (record c { log = log })) (sym (append-nil c.log)), r, λ k. refl)
  invoke_each-told ((nsp, s) ∷ rest) c e ((later, sorted), (empty, u)) r =
      let asked : Socket = record s { next_id = c.next_id } in
      let stored : Client = record c {
        sockets = put nsp (record (fn asked) { log = [] }) c.sockets;
        log = c.log ++ says nsp asked;
      } in
      let (sockets, runs, kept, found) =
        invoke_each-told rest stored e (sorted, u)
          (put-IsRegistry nsp (record (fn asked) { log = [] }) c.sockets refl r) in
      (
        sockets,
        ap (λ o. o >>= invoke_each codec fn rest) (settles nsp asked c e empty refl)
            ∙ runs
            ∙ ap (λ log. ok (record c { sockets = sockets; log = log }))
                (append_assoc c.log (says nsp asked) (told says c.next_id rest)),
        kept,
        λ k. found k ∙ step k,
      )
    where
      step :
          (k : Bytes)
          → after_each fn c.next_id
              (find k rest)
              (find k (put nsp (after_call fn c.next_id s) c.sockets))
            ≡ after_each fn c.next_id
                (if bytes_eq nsp k then some s else find k rest)
                (find k c.sockets)
      step k = elim (Bool-cases (bytes_eq nsp k)) [
        | inl e ↦
            let same : nsp ≡ k = (bytes_eq_iff nsp k).0 e in
            rw (
              e,
              ← same,
              find-After nsp rest later,
              find-put nsp nsp (after_call fn c.next_id s) c.sockets,
              bytes_eq_refl nsp,
            )
        | inr e ↦ rw (e, find-put nsp k (after_call fn c.next_id s) c.sockets, e)
      ]

  -- The call reaches every stored socket, in the order of the map.
  pub sockets_invoke_void-told :
      (c : Client)
      → c.packet_mgr ≡ m
      → IsRegistry c.sockets
      → (sockets : List (Bytes × Socket)) × (sockets_invoke_void codec fn c
          ≡ ok (record c { sockets = sockets; log = c.log ++ told says c.next_id c.sockets }))
        × IsRegistry sockets
        × ((k : Bytes) → find k sockets ≡ after_each fn c.next_id (find k c.sockets) none)
  unfolding sockets_invoke_void
  sockets_invoke_void-told c e u =
      let (sockets, runs, kept, found) = invoke_each-told c.sockets c e u u in
      (sockets, runs, kept, λ k. found k ∙ self (find k c.sockets))
    where
      self : (o : Option Socket) → after_each fn c.next_id o o ≡ after_each fn c.next_id o none
      self none = refl
      self (some s) = refl

module _ (codec : Codec) (fn : Socket → Socket) (quiet : AsksNothing fn) where
  quiet-Settles : (m : Manager) → Settles codec m fn (λ nsp s. [])
  quiet-Settles m nsp s c e empty same =
      settle-quiet codec nsp (fn s) c (quiet.no_log s empty) (quiet.no_id s ∙ same)
      ∙ ap
          (λ log.
            ok (record c { sockets = put nsp (record (fn s) { log = [] }) c.sockets; log = log }))
          (sym (append-nil c.log))

  -- The call reaches every stored socket, and touches nothing else of the client.
  pub sockets_invoke_void-quiet :
      (c : Client)
      → IsRegistry c.sockets
      → (sockets : List (Bytes × Socket)) × (sockets_invoke_void codec fn c
          ≡ ok (record c { sockets = sockets }))
        × IsRegistry sockets
        × ((k : Bytes) → find k sockets ≡ after_each fn c.next_id (find k c.sockets) none)
  sockets_invoke_void-quiet c u =
      let (sockets, runs, kept, found) =
        sockets_invoke_void-told codec c.packet_mgr fn (λ nsp s. []) (quiet-Settles c.packet_mgr) c
          refl u in
      (
        sockets,
        runs
            ∙ ap (λ log. ok (record c { sockets = sockets; log = log }))
                (ap (◌++◌ c.log) (told_nothing c.next_id c.sockets) ∙ append-nil c.log),
        kept,
        found,
      )
