-- ===== src/Solver/Connection/Sizes.antt =====
-- A size for which the Java client has no graph.
use taquin_client_project.Base.{
  ℕ, zero, suc, ◌+◌, ◌-◌, ◌<◌, ◌≤◌, ◌^◌, ◌≡◌, ◌≢◌, ◌⊎◌, ◌∙◌, refl, ap, sym, subst, arith, ltb,
  Bool-cases, inl, inr, Bytes, codes, ℤ, pos, negsuc, pos_part, neg_part, to_int32, Option, some,
  List, [], ◌∷◌,
}
use taquin_client_project.Result.{ok, err, out_of_range}
use taquin_client_project.Solver.Graph.{Triple, get}
use taquin_client_project.Solver.Paths.{IsPoll}
use taquin_client_project.Solver.Player.{
  Puzzle, Player, new_player, get_puzzle, get_taquin, minus_two, solve_taquin, solve_next_step,
  place_text, read_id,
}
use taquin_client_project.Solver.Connection.{
  Json, json, Connection, new_connection, reply, Event, ack_solve, error_solve, get_matriz, solve,
  handle, run, on_error_solve,
}
use taquin_client_project.Solver.Connection.Keeps.{run-Keeps}
use taquin_client_project.Solver.Connection.Replies.{acknowledged, counted, solve_mine}
use taquin_client_project.Solver.Connection.Game.{the_player}

get-two : (z z' : Puzzle) (i : ℕ) → 2 ≤ i → get (z ∷ z' ∷ []) i ≡ err out_of_range
get-two z z' zero h = absurd (omega arith)
get-two z z' (suc zero) h = absurd (omega arith)
get-two z z' (suc (suc i)) h = refl

-- An `int` other than 2 and 3, less 2, is no index of a list of two.
no_index :
    (v : ℤ)
    → pos_part v < 2 ^ 31
    → neg_part v ≤ 2 ^ 31
    → v ≢ pos 2
    → v ≢ pos 3
    → ((k : ℕ) × (minus_two v ≡ negsuc k)) ⊎ ((k : ℕ) × (minus_two v ≡ pos k) × (2 ≤ k))
unfolding to_int32
no_index (pos n) h k two three = elim (Bool-cases (ltb n 2)) [
  | inl small ↦ inl (1 - n, ground arith)
  | inr large ↦ inr (n - 2, ground arith, ground (arith, two, three))
]
no_index (negsuc m) h k two three = elim (Bool-cases (ltb (m + 2) (2 ^ 31))) [
  | inl small ↦ inl (m + 2, ground arith)
  | inr wraps ↦ inr (2 ^ 32 - 1 - (m + 2), ground arith, ground arith)
]

no_puzzle :
    (z z' : Puzzle) (v : ℤ)
    → pos_part v < 2 ^ 31
    → neg_part v ≤ 2 ^ 31
    → v ≢ pos 2
    → v ≢ pos 3
    → get_puzzle (z ∷ z' ∷ []) (minus_two v) ≡ err out_of_range
no_puzzle z z' v h k two three = elim (no_index v h k two three) [
  | inl (i, e) ↦ rw e refl
  | inr (i, e, large) ↦ rw e (get-two z z' i large)
]

module _ (q : Player) (bad : get_puzzle q.graphs q.size ≡ err out_of_range) where
  solve_taquin-bad :
      (parse_int : Bytes → Option ℤ) (matriz : Bytes)
      → solve_taquin parse_int matriz q ≡ (record q { step = 1 }, err out_of_range)
  unfolding solve_taquin read_id
  solve_taquin-bad parse_int matriz = rw (bad, solve_taquin) refl

  solve_next_step-bad : solve_next_step q ≡ (q, err out_of_range)
  unfolding solve_next_step
  solve_next_step-bad = rw (bad, solve_next_step) refl

  place_text-bad : place_text q ≡ err out_of_range
  unfolding place_text
  place_text-bad = rw bad refl

get_taquin-bad :
    (v : ℤ) (q : Player)
    → get_puzzle q.graphs (minus_two v) ≡ err out_of_range
    → get_taquin v q ≡ (record q { size = minus_two v }, err out_of_range)
unfolding get_taquin
get_taquin-bad v q bad = rw bad refl

reply-err :
    (topic : Bytes) (c : Connection) (q : Player)
    → reply topic c (q, err out_of_range) ≡ (record c { player = q }, [], some out_of_range)
unfolding reply
reply-err topic c q = refl

-- A client of TaquinClient's constructor, after any events that left it with an id, is asked for a size, an
-- `int` other than 2 and 3. It throws, sends nothing, and keeps the size: a board with its id, an
-- acknowledgement and an error after that each throw, too, and send nothing.
pub unknown_size_throws :
    (poll : List Triple → Option (Triple × List Triple)) (parse_int : Bytes → Option ℤ) (v : ℤ)
    (p : Player) (hostnambe username i text matriz : Bytes) (es : List Event) (sizes board : Json)
    → IsPoll poll
    → pos_part v < 2 ^ 31
    → neg_part v ≤ 2 ^ 31
    → v ≢ pos 2
    → v ≢ pos 3
    → new_player poll ≡ some (ok p)
    → (run parse_int es (new_connection hostnambe username p)).0.id ≡ some i
    → sizes (codes "n_size") ≡ some text
    → parse_int text ≡ some v
    → board (codes "id") ≡ some i
    → board (codes "matriz") ≡ some matriz
    → (c1 c2 : Connection) × (handle parse_int
          (get_matriz (json sizes ∷ []))
          (run parse_int es (new_connection hostnambe username p)).0
        ≡ (c1, [], some out_of_range))
      × (c1.player.size ≡ minus_two v)
      × (handle parse_int (solve (json board ∷ [])) c1 ≡ (c2, [], some out_of_range))
      × (handle parse_int ack_solve c1 ≡ (c1, [], some out_of_range))
      × (handle parse_int error_solve c1 ≡ (c1, [], some out_of_range))
unfolding new_connection handle on_error_solve
unknown_size_throws poll parse_int v p hostnambe username i text matriz es sizes board least h k two
      three made mine size read own given =
    let start = new_connection hostnambe username p in
    let c = (run parse_int es start).0 in
    let listed = (the_player poll p least made) in
    let bad : get_puzzle c.player.graphs (minus_two v) ≡ err out_of_range =
      subst (λ gs. get_puzzle gs (minus_two v) ≡ err out_of_range)
        (sym ((run-Keeps parse_int es start).graphs ∙ listed.listed))
        (no_puzzle listed.small listed.large v h k two three) in
    let q : Player = record c.player { size = minus_two v } in
    let c1 : Connection = record c { player = q } in
    (
      c1,
      record c1 { player = record q { step = 1 } },
      counted parse_int sizes text v c size read
          ∙ ap (reply (codes "get-matriz-reply") c) (get_taquin-bad v c.player bad)
          ∙ reply-err (codes "get-matriz-reply") c q,
      refl,
      solve_mine parse_int board i matriz c1 mine own given
          ∙ ap (reply (codes "step") c1) (solve_taquin-bad q bad parse_int matriz)
          ∙ reply-err (codes "step") c1 (record q { step = 1 }),
      acknowledged parse_int c1
          ∙ ap (reply (codes "step") c1) (solve_next_step-bad q bad)
          ∙ reply-err (codes "step") c1 q,
      ap (λ r. reply (codes "step") c1 (q, r)) (place_text-bad q bad)
          ∙ reply-err (codes "step") c1 q,
    )
