-- ===== src/Solver/Connection/Game.antt =====
-- From a client of the Java program to the solved board: a size that the server asks for, the board that
-- the client proposes, and the steps that it answers.
use taquin_client_project.Base.{
  ℕ, ◌-◌, ◌<◌, ◌≤◌, ◌^◌, ◌==◌, ◌≡◌, ◌∙◌, refl, ap, sym, subst, arith, Bool-cases, inl, inr, Bytes,
  codes, to_string, to_int32, ℤ, pos, Option, none, some, List, [], ◌∷◌, length,
}
use taquin_client_project.Result.{Result, ok, err}
use taquin_client_project.Solver.Graph.{Node, Triple}
use taquin_client_project.Solver.Graph.Valid.{Reach}
use taquin_client_project.Solver.Paths.{IsPoll}
use taquin_client_project.Solver.Text.{bit_set_to_string}
use taquin_client_project.Solver.Player.{
  Puzzle, Player, new_graph, new_player, get_puzzle, minus_two,
}
use taquin_client_project.Solver.Player.Constructor.{new_graph-IsPuzzle}
use taquin_client_project.Solver.Player.Hardest.{
  IsHardest, farthest-Stored, farthest_away, fewest-IsHardest, get_taquin-farthest,
}
use taquin_client_project.Solver.Player.Solves.{solve_answers-Stored, the_puzzle}
use taquin_client_project.Solver.Connection.{
  Json, json, emit, Connection, new_connection, reply, Event, get_matriz, solve, run,
}
use taquin_client_project.Solver.Connection.Keeps.{run-Keeps}
use taquin_client_project.Solver.Connection.Replies.{acks, steps, counted, run-reply, run-solve}

-- The constructor of TaquinClient ends, and its list has the graphs of the sizes 2 and 3.
pub record IsPlayer (poll : List Triple → Option (Triple × List Triple)) (p : Player) : Type 0 where
  pub small : Puzzle
  pub large : Puzzle
  pub small_made : new_graph poll 2 ≡ some (ok small)
  pub large_made : new_graph poll 3 ≡ some (ok large)
  pub listed : p.graphs ≡ small ∷ large ∷ []

pub new_player-IsPlayer :
    (poll : List Triple → Option (Triple × List Triple))
    → IsPoll poll
    → (p : Player) × (new_player poll ≡ some (ok p)) × IsPlayer poll p
unfolding new_player
new_player-IsPlayer poll least =
    let (z, _, made, _) = new_graph-IsPuzzle poll 2 least (omega arith) (omega arith) in
    let (z', _, made', _) = new_graph-IsPuzzle poll 3 least (omega arith) (omega arith) in
    (
      record { step = 0; graphs = z ∷ z' ∷ []; size = pos 0; id = 0 },
      rw (made, new_player) (rw (made', new_player) refl),
      record { small = z; large = z'; small_made = made; large_made = made'; listed = refl },
    )

abbrev player_or : Option (Result Player) → Player → Player
player_or (some (ok p)) d = p
player_or (some (err e)) d = d
player_or none d = d

pub the_player :
    (poll : List Triple → Option (Triple × List Triple)) (p : Player)
    → IsPoll poll
    → new_player poll ≡ some (ok p)
    → IsPlayer poll p
the_player poll p least made =
    let (p', made', v) = new_player-IsPlayer poll least in
    subst (IsPlayer poll) (ap (λ o. player_or o p) (sym made' ∙ made)) v

-- The graph of a size in the list of the constructor.
small_or_large :
    (poll : List Triple → Option (Triple × List Triple)) (n : ℕ) (p : Player)
    → IsPlayer poll p
    → 2 ≤ n
    → n ≤ 3
    → (y : Puzzle) × (new_graph poll n ≡ some (ok y))
      × (get_puzzle p.graphs (minus_two (pos n)) ≡ ok y)
unfolding to_int32
small_or_large poll n p v h k = elim (Bool-cases (n == 2)) [
  | inl two ↦ let e : n ≡ 2 = ground arith in rw (e, v.listed) (v.small, v.small_made, refl)
  | inr other ↦ let e : n ≡ 3 = ground arith in rw (e, v.listed) (v.large, v.large_made, refl)
]

-- A client in which the graph of the size is in the list, and that has an id.
play :
    (poll : List Triple → Option (Triple × List Triple)) (parse_int : Bytes → Option ℤ) (n : ℕ)
    (z : Puzzle) (i : Bytes) (sizes : Json) (boards : Bytes → Json) (c : Connection)
    → IsPoll poll
    → ((v : ℕ) → v < 2 ^ 31 → parse_int (to_string v) ≡ some (pos v))
    → 2 ≤ n
    → n ≤ 3
    → new_graph poll n ≡ some (ok z)
    → get_puzzle c.player.graphs (minus_two (pos n)) ≡ ok z
    → c.id ≡ some i
    → sizes (codes "n_size") ≡ some (to_string n)
    → ((s : Bytes) → boards s (codes "id") ≡ some i)
    → ((s : Bytes) → boards s (codes "matriz") ≡ some s)
    → (s : Bytes) × (a : Node) × (bs : List Node) × (last : Connection) × (bit_set_to_string
          z.taquin.n z.taquin.nbits z.taquin.size_bs a.taquin_bs
        ≡ ok s)
      × Reach z.taquin a
      × IsHardest z.taquin a bs
      × (run parse_int
            (get_matriz (json sizes ∷ []) ∷ solve (json (boards s) ∷ []) ∷ acks (length bs - 1))
            c
          ≡ (last, emit (codes "get-matriz-reply") (some s) ∷ steps 0 bs, none))
play poll parse_int n z i sizes boards c least reads h k made in_use mine size same board =
    let some_cell : 1 ≤ n = omega arith in
    let (dist, v) = the_puzzle poll n z least some_cell (omega arith) made in
    let (a, stored) = farthest-Stored n some_cell z dist v in
    let (d, away) = farthest_away n some_cell z dist v h in
    let asked = record c.player { size = minus_two (pos n) } in
    let (s, bs, printed, fewest, same_answers, count) =
      solve_answers-Stored parse_int n z asked dist z.paths.farthest_node d a reads some_cell
        (omega arith) v in_use stored away in
    let got = get_taquin-farthest (pos n) c.player z a s in_use stored printed in
    let (last, runs) =
      run-solve parse_int (boards s) i s (length bs - 1) bs (record c { player = asked })
        (omega (arith, count, away)) mine (same s) (board s) same_answers in
    (
      s,
      a,
      bs,
      last,
      printed,
      v.explored.valid.reached z.paths.farthest_node a stored,
      fewest-IsHardest n some_cell z dist v a bs fewest count,
      run-reply parse_int (get_matriz (json sizes ∷ []))
          (solve (json (boards s) ∷ []) ∷ acks (length bs - 1)) (codes "get-matriz-reply") s c last
          (steps 0 bs) (asked, ok s)
          (counted parse_int sizes (to_string n) (pos n) c size (reads n (omega arith))
            ∙ ap (reply (codes "get-matriz-reply") c) got)
          refl runs,
    )

-- Let the queue poll least triples, `parseInt` read what is printed of a number below 2^31, and take a client
-- of TaquinClient's constructor after any events that left it with an id. The server asks for the size 2 or
-- 3, gets a board, sends the text that it got back with the id, and acknowledges each step but the last. The
-- client then sends, and nothing else, the text of a board that slides lead to, and the places of the blank
-- after each of some slides from it down to the solved board, numbered from 1. These are as few as there can
-- be, and no board needs more. Nothing is thrown.
pub game_solved :
    (poll : List Triple → Option (Triple × List Triple)) (parse_int : Bytes → Option ℤ) (n : ℕ)
    (p : Player) (hostnambe username i : Bytes) (es : List Event) (sizes : Json)
    (boards : Bytes → Json)
    → IsPoll poll
    → ((v : ℕ) → v < 2 ^ 31 → parse_int (to_string v) ≡ some (pos v))
    → 2 ≤ n
    → n ≤ 3
    → new_player poll ≡ some (ok p)
    → (run parse_int es (new_connection hostnambe username p)).0.id ≡ some i
    → sizes (codes "n_size") ≡ some (to_string n)
    → ((s : Bytes) → boards s (codes "id") ≡ some i)
    → ((s : Bytes) → boards s (codes "matriz") ≡ some s)
    → (z : Puzzle) × (s : Bytes) × (a : Node) × (bs : List Node) × (last : Connection) × (new_graph
          poll n
        ≡ some (ok z))
      × (bit_set_to_string z.taquin.n z.taquin.nbits z.taquin.size_bs a.taquin_bs ≡ ok s)
      × Reach z.taquin a
      × IsHardest z.taquin a bs
      × (run parse_int
            (get_matriz (json sizes ∷ []) ∷ solve (json (boards s) ∷ []) ∷ acks (length bs - 1))
            (run parse_int es (new_connection hostnambe username p)).0
          ≡ (last, emit (codes "get-matriz-reply") (some s) ∷ steps 0 bs, none))
unfolding new_connection
game_solved poll parse_int n p hostnambe username i es sizes boards least reads h k made mine size
      same board =
    let c = new_connection hostnambe username p in
    let (z, z_made, in_use) = small_or_large poll n p (the_player poll p least made) h k in
    let kept = (run-Keeps parse_int es c).graphs in
    let (s, a, bs, last, printed, reach, hardest, runs) =
      play poll parse_int n z i sizes boards (run parse_int es c).0 least reads h k z_made
        (subst (λ gs. get_puzzle gs (minus_two (pos n)) ≡ ok z) (sym kept) in_use) mine size same
        board in
    (z, s, a, bs, last, z_made, printed, reach, hardest, runs)
