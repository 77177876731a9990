-- ===== src/Solver/Connection/Replies.antt =====
-- The answers of the Java client to the events of its server.
use taquin_client_project.Base.{
  ℕ, zero, suc, ◌+◌, ◌<◌, ◌≡◌, ◌∙◌, refl, ap, sym, subst, arith, Bytes, codes, bytes_eq_refl, true,
  ℤ, Option, none, some, List, [], ◌∷◌, length,
}
use taquin_client_project.Result.{Result, ok}
use taquin_client_project.Solver.Graph.{Node}
use taquin_client_project.Solver.Player.{Player, get_taquin, solve_taquin, solve_next_step}
use taquin_client_project.Solver.Player.Route.{step_text, answers, next_answers, solve_answers}
use taquin_client_project.Solver.Connection.{
  Json, json, Effect, emit, Connection, Outcome, is_id, with_text, with_object, reply,
  on_get_matriz, on_solve, on_ack_solve, Event, ack_solve, get_matriz, solve, handle, and_then, run,
}

-- The acknowledgements of m steps.
abbrev pub acks : ℕ → List Event
acks zero = []
acks (suc m) = ack_solve ∷ acks m

-- The steps that a client sends for some boards, from step k + 1 on.
unfoldable pub steps : ℕ → List Node → List Effect
steps k [] = []
steps k (b ∷ bs) = emit (codes "step") (some (step_text (k + 1) b)) ∷ steps (k + 1) bs

abbrev head_or : Result Bytes → List (Result Bytes) → Result Bytes
head_or d [] = d
head_or d (r ∷ rs) = r

abbrev rest_of : List (Result Bytes) → List (Result Bytes)
rest_of [] = []
rest_of (r ∷ rs) = rs

reply-ok :
    (topic : Bytes) (c : Connection) (r : Player × Result Bytes) (s : Bytes)
    → r.1 ≡ ok s
    → reply topic c r ≡ (record c { player = r.0 }, emit topic (some s) ∷ [], none)
unfolding reply
reply-ok topic c (p, t) s e = rw e refl

-- An object with the text under the key.
with_object-json :
    (c : Connection) (o : Json) (f : Option Json → Outcome)
    → with_object c (json o ∷ []) f ≡ f (some o)
unfolding with_object
with_object-json c o f = refl

with_text-some :
    (c : Connection) (did : List Effect) (o : Json) (key v : Bytes) (f : Bytes → Outcome)
    → o key ≡ some v
    → with_text c did (some o) key f ≡ f v
unfolding with_text
with_text-some c did o key v f e = rw e refl

module _ (parse_int : Bytes → Option ℤ) where
  -- An event that the client answers, and what comes after it.
  pub run-reply :
      (e : Event) (es : List Event) (topic s : Bytes) (c last : Connection) (did : List Effect)
      (r : Player × Result Bytes)
      → handle parse_int e c ≡ reply topic c r
      → r.1 ≡ ok s
      → run parse_int es (record c { player = r.0 }) ≡ (last, did, none)
      → run parse_int (e ∷ es) c ≡ (last, emit topic (some s) ∷ did, none)
  unfolding run and_then
  run-reply e es topic s c last did r handled answered runs =
      rw (handled ∙ reply-ok topic c r s answered, runs) refl

  pub acknowledged :
      (c : Connection)
      → handle parse_int ack_solve c ≡ reply (codes "step") c (solve_next_step c.player)
  unfolding handle on_ack_solve
  acknowledged c = refl

  pub run-acks :
      (m k : ℕ) (bs : List Node) (c : Connection)
      → next_answers m c.player ≡ answers k bs
      → (last : Connection) × (run parse_int (acks m) c ≡ (last, steps k bs, none))
  unfolding run next_answers answers steps
  run-acks zero k [] c e = (c, refl)
  run-acks zero k (b ∷ bs) c e = cc
  run-acks (suc m) k [] c e = cc
  run-acks (suc m) k (b ∷ bs) c e =
      let r = solve_next_step c.player in
      let (last, runs) = run-acks m (k + 1) bs (record c { player = r.0 }) (ap rest_of e) in
      (
        last,
        run-reply ack_solve (acks m) (codes "step") (step_text (k + 1) b) c last (steps (k + 1) bs)
            r (acknowledged c) (ap (head_or (ok [])) e) runs,
      )

  pub solve_mine :
      (o : Json) (i matriz : Bytes) (c : Connection)
      → c.id ≡ some i
      → o (codes "id") ≡ some i
      → o (codes "matriz") ≡ some matriz
      → handle parse_int (solve (json o ∷ [])) c
        ≡ reply (codes "step") c (solve_taquin parse_int matriz c.player)
  unfolding handle on_solve
  solve_mine o i matriz c mine same board =
      let own : is_id i c.id ≡ true = subst (λ x. is_id i x ≡ true) (sym mine) (bytes_eq_refl i) in
      rw (same, own, board) refl

  pub counted :
      (o : Json) (text : Bytes) (n : ℤ) (c : Connection)
      → o (codes "n_size") ≡ some text
      → parse_int text ≡ some n
      → handle parse_int (get_matriz (json o ∷ [])) c
        ≡ reply (codes "get-matriz-reply") c (get_taquin n c.player)
  unfolding handle on_get_matriz
  counted o text n c size read = rw (size, read) refl

  pub run-solve :
      (o : Json) (i matriz : Bytes) (m : ℕ) (bs : List Node) (c : Connection)
      → 0 < length bs
      → c.id ≡ some i
      → o (codes "id") ≡ some i
      → o (codes "matriz") ≡ some matriz
      → solve_answers parse_int m matriz c.player ≡ answers 0 bs
      → (last : Connection) × (run parse_int (solve (json o ∷ []) ∷ acks m) c
          ≡ (last, steps 0 bs, none))
  unfolding solve_answers answers steps
  run-solve o i matriz m [] c h mine same board e = absurd (omega arith)
  run-solve o i matriz m (b ∷ bs) c h mine same board e =
      let r = solve_taquin parse_int matriz c.player in
      let (last, runs) = run-acks m 1 bs (record c { player = r.0 }) (ap rest_of e) in
      (
        last,
        run-reply (solve (json o ∷ [])) (acks m) (codes "step") (step_text 1 b) c last (steps 1 bs)
            r (solve_mine o i matriz c mine same board) (ap (head_or (ok [])) e) runs,
      )
