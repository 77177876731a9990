-- ===== src/App/Steps.antt =====
-- The solving protocol of main.cpp: "solve" sends the first move, each "ack-solve" the next one.
use taquin_client_project.Base.{
  ℕ, zero, suc, ◌+◌, ◌≤◌, ◌<◌, Bytes, codes, some, List, [], ◌∷◌, ◌++◌, length, get_elem?,
  get_elem?-append_right, length-append, append_assoc, sym, bytes_eq_refl, ◌≡◌, refl, arith, ap,
  ap₂, subst, append-nil, ◌∙◌,
}
use taquin_client_project.Result.{Result, ok}
use taquin_client_project.Message.{Ptr}
use taquin_client_project.App.{
  App, Effect, emit, out, Event, solve, ack_solve, handle, run, on_ack_solve, next_step, entry,
  table, limit, step_text, on_solve, start_solving, string_at,
}

-- What went to the server.
abbrev pub sent : List Effect → List (Bytes × Bytes)
sent [] = []
sent (emit name text ∷ es) = (name, text) ∷ sent es
sent (_ ∷ es) = sent es

pub sent-append : (xs ys : List Effect) → sent (xs ++ ys) ≡ sent xs ++ sent ys
sent-append [] ys = refl
sent-append (emit name text ∷ xs) ys = ap (◌∷◌ (name, text)) (sent-append xs ys)
sent-append (_ ∷ xs) ys = sent-append xs ys

-- The replies to the entries of a table, numbered from i + 1.
abbrev pub numbered : ℕ → List Bytes → List (Bytes × Bytes)
numbered i [] = []
numbered i (move ∷ moves) = (codes "step", step_text i move) ∷ numbered (i + 1) moves

-- k acknowledgements in a row.
abbrev pub acks : ℕ → Ptr → List (Event × Ptr)
acks zero d = []
acks (suc k) d = (ack_solve, d) ∷ acks k d

-- A run that ends, and what it leaves and sends.
abbrev pub Sends : Result (App × List Effect) → App → List (Bytes × Bytes) → Type 0
Sends r a es = (did : List Effect) × (r ≡ ok (a, did)) × (sent did ≡ es)

abbrev pub at_step : App → ℕ → App
at_step a n = record a { step = n }

-- One acknowledgement below the limit sends the entry at `step_`.
on_ack_solve-next :
    (a : App) (d : Ptr) (move : Bytes)
    → a.step < limit a
    → get_elem? (table a) a.step ≡ some move
    → Sends (on_ack_solve a d) (at_step a (a.step + 1)) (numbered a.step (move ∷ []))
unfolding on_ack_solve next_step entry
on_ack_solve-next a d move h e = (
  out (codes "ack-solve ") ∷ out (codes "==> " ++ s) ∷ emit (codes "step") s ∷ [],
  ground (arith, e),
  refl,
)
  where
    s : Bytes
    s = step_text a.step move

Sends-run :
    (e : Event) (d : Ptr) (rest : List (Event × Ptr)) (a b c : App) (xs ys : List (Bytes × Bytes))
    → Sends (handle e a d) b xs
    → Sends (run b rest) c ys
    → Sends (run a ((e, d) ∷ rest)) c (xs ++ ys)
unfolding run
Sends-run e d rest a b c xs ys (did, p, s) (more, q, t) =
    (did ++ more, rw (p, q), sent-append did more ∙ ap₂ ◌++◌ s t)

-- As many acknowledgements as there are moves left below the limit send those moves; then the run
-- goes on.
acks-Sends :
    (moves before after : List Bytes) (a c : App) (d : Ptr) (j : ℕ) (rest : List (Event × Ptr))
    (ys : List (Bytes × Bytes))
    → table a ≡ before ++ (moves ++ after)
    → length before ≡ a.step
    → j ≡ a.step + length moves
    → j ≤ limit a
    → Sends (run (at_step a j) rest) c ys
    → Sends (run a (acks (length moves) d ++ rest)) c (numbered a.step moves ++ ys)
unfolding table
acks-Sends [] before after a c d j rest ys e n eq h k =
    subst (λ i. Sends (run (at_step a i) rest) c ys) (omega arith) k
acks-Sends (move ∷ moves) before after a c d j rest ys e n eq h k =
    Sends-run ack_solve d (acks (length moves) d ++ rest) a (at_step a (a.step + 1)) c _ _
      (on_ack_solve-next a d move (omega arith)
        (rw (e, ← n) (get_elem?-append_right before move (moves ++ after))))
      (acks-Sends moves (before ++ move ∷ []) after (at_step a (a.step + 1)) c d j rest ys
        (e ∙ sym (append_assoc before (move ∷ []) (moves ++ after)))
        (length-append before (move ∷ []) ∙ omega (arith, n)) (omega arith) h k)

-- An acknowledgement at the limit sends nothing and starts over.
on_ack_solve-last :
    (a : App) (d : Ptr) → a.step ≡ limit a → Sends (on_ack_solve a d) (at_step a 0) []
unfolding on_ack_solve
on_ack_solve-last a d e = (out (codes "ack-solve ") ∷ [], ground (arith, e), refl)

-- "solve" for this client's id sends the first move.
on_solve-first :
    (a : App) (d : Ptr) (matriz move : Bytes) (rest : List Bytes)
    → string_at d (codes "matriz") ≡ ok matriz
    → string_at d (codes "id") ≡ ok a.id
    → table a ≡ move ∷ rest
    → Sends (on_solve a d) (at_step a 1) (numbered 0 (move ∷ []))
unfolding on_solve start_solving entry
on_solve-first a d matriz move rest m i t = (
  out (codes "Solve -> " ++ matriz) ∷ out s ∷ emit (codes "step") s ∷ [],
  rw (m, i) (ground (arith, bytes_eq_refl a.id, t)),
  refl,
)
  where
    s : Bytes
    s = step_text 0 move

-- The last acknowledgement ends the round.
last_ack-Sends : (a : App) (d : Ptr) → a.step ≡ limit a → Sends (run a (acks 1 d)) (at_step a 0) []
last_ack-Sends a d e =
    Sends-run ack_solve d [] a (at_step a 0) (at_step a 0) [] [] (on_ack_solve-last a d e)
      ([], unfold run in refl, refl)

-- Take a state whose table is `move ∷ (moves ++ after)` with as many of these moves as the limit (3 on
-- the first table, 6 on the second), and a "solve" message with a text at "matriz" and this client's
-- id at "id". That message, one acknowledgement for each of `moves` and one more end without a fault,
-- whatever `step_` was. They send exactly the moves, in order, each as a "step" event numbered from 1,
-- and leave the state as it was but for `step_`, which is 0.
pub solve_round :
    (a : App) (d d' : Ptr) (matriz move : Bytes) (moves after : List Bytes)
    → string_at d (codes "matriz") ≡ ok matriz
    → string_at d (codes "id") ≡ ok a.id
    → table a ≡ move ∷ (moves ++ after)
    → suc (length moves) ≡ limit a
    → Sends
        (run a ((solve, d) ∷ (acks (length moves) d' ++ acks 1 d')))
        (at_step a 0)
        (numbered 0 (move ∷ moves))
solve_round a d d' matriz move moves after m i t n =
    subst (Sends _ (at_step a 0)) (append-nil (numbered 0 (move ∷ moves))) (
      Sends-run solve d (acks (length moves) d' ++ acks 1 d') a (at_step a 1) (at_step a 0) _ _
        (on_solve-first a d matriz move (moves ++ after) m i t)
        (acks-Sends moves (move ∷ []) after (at_step a 1) (at_step a 0) d' (limit a) (acks 1 d') []
          (unfold table in t) refl (omega arith) (omega arith)
          (last_ack-Sends (at_step a (limit a)) d' refl)))
