-- ===== src/Solver/Player/Solves.antt =====
-- From a board's text to the solved board.
use taquin_client_project.Base.{
  ℕ, zero, suc, ◌-◌, ◌*◌, ◌^◌, ◌<◌, ◌≤◌, ◌≡◌, ◌≢◌, Bool-cases, ltb, ◌∙◌, ap, sym, subst, arith,
  Bytes, to_string, ℤ, pos, Option, none, some, List, length, inl, inr,
}
use mathlib.Core.Option
use taquin_client_project.Result.{Result, ok, err}
use taquin_client_project.Solver.Board.{Taquin}
use taquin_client_project.Solver.Board.Solved.{IsSolved}
use taquin_client_project.Solver.Graph.{Node, Triple}
use taquin_client_project.Solver.Graph.Offer.{Reach-IsBoard}
use taquin_client_project.Solver.Graph.Store.{get_elem?_lt}
use taquin_client_project.Solver.Graph.Valid.{solved, Reach, Stored}
use taquin_client_project.Solver.Graph.Complete.{IsSolved-IsBoard}
use taquin_client_project.Solver.Paths.{IsPoll}
use taquin_client_project.Solver.Text.{bit_set_to_string, convert_to_bit_set}
use taquin_client_project.Solver.Player.{Puzzle, Player, new_graph, get_puzzle}
use taquin_client_project.Solver.Player.Constructor.{IsPuzzle, new_graph-IsPuzzle}
use taquin_client_project.Solver.Player.Fewest.{Route, IsFewest, fewest_slides}
use taquin_client_project.Solver.Player.Route.{
  answers, solve_answers, solve_answers-Route_from, read_id-found,
}
use taquin_client_project.Solver.Text.RoundTrip.{convert-to_string}
use taquin_client_project.Solver.Board.Width.{IsWidth}
use native.Mathlib.Nat.{mul-le-mul}

abbrev puzzle_or : Option (Result Puzzle) → Puzzle → Puzzle
puzzle_or (some (ok z)) d = z
puzzle_or (some (err e)) d = d
puzzle_or none d = d

narrow : (n k : ℕ) → n ≤ 256 → IsWidth n k → k ≤ 31
narrow n k h w = elim (Bool-cases (ltb 31 k)) [
  | inr most ↦ ground arith
  | inl more ↦
      let cells : n * n ≤ 256 * 256 = mul-le-mul h h in
      absurd (omega (arith, cells, w.least 31 (ground arith)))
]

pub sizes : (n : ℕ) (t : Taquin) → IsSolved n t → t.size_bs ≡ t.n * t.n * t.nbits
sizes n t v = rw v.side v.size

-- The text of a board is read as the board.
pub printed_read :
    (parse_int : Bytes → Option ℤ) (n : ℕ) (t : Taquin)
    → ((v : ℕ) → v < 2 ^ 31 → parse_int (to_string v) ≡ some (pos v))
    → 1 ≤ n
    → n ≤ 256
    → IsSolved n t
    → (b : ℕ) → b < 2 ^ t.size_bs
    → (s : Bytes) × (bit_set_to_string t.n t.nbits t.size_bs b ≡ ok s)
      × (convert_to_bit_set parse_int t.n t.nbits t.size_bs s ≡ ok b)
printed_read parse_int n t reads h k v b bound =
    let bound' : b < 2 ^ (t.n * t.n * t.nbits) = rw (sizes n t v) at bound in
    let (s, printed, read) =
      convert-to_string parse_int t.n t.nbits b reads (rw v.side h) (narrow n t.nbits k v.width)
        bound' in
    (
      s,
      subst (λ size. bit_set_to_string t.n t.nbits size b ≡ ok s) (sym (sizes n t v)) printed,
      subst (λ size. convert_to_bit_set parse_int t.n t.nbits size s ≡ ok b) (sym (sizes n t v))
          read,
    )

-- Away from the solved board there is a way to go.
away :
    (n : ℕ) (z : Puzzle) (dist : ℕ → ℕ)
    → IsPuzzle n z dist
    → (id : ℕ) (a : Node) → Stored z.graph id a
    → a.taquin_bs ≢ z.taquin.taquin_bs
    → (d : ℕ) × (dist id ≡ suc d)
away n z dist v zero a s other = absurd (
    other (
      ap (λ (x : Node). x.taquin_bs)
        (Option.some-injective a (solved z.taquin) (sym s ∙ v.explored.first))))
away n z dist v (suc id) a s other =
    let here : suc id < length z.graph.graph =
      omega (arith, v.explored.valid.lists, get_elem?_lt z.graph.reverse_ids (suc id) a s) in
    let (q, parent, edge, down) = v.shortest.down (suc id) (omega arith) here in (dist q, down)

pub the_puzzle :
    (poll : List Triple → Option (Triple × List Triple)) (n : ℕ) (z : Puzzle)
    → IsPoll poll
    → 1 ≤ n
    → n ≤ 256
    → new_graph poll n ≡ some (ok z)
    → (dist : ℕ → ℕ) × IsPuzzle n z dist
the_puzzle poll n z least h k made =
    let (z', dist, made', v') = new_graph-IsPuzzle poll n least h k in
    let same : z' ≡ z = ap (λ o. puzzle_or o z) (sym made' ∙ made) in
    (dist, subst (λ x. IsPuzzle n x dist) same v')

-- The answers to the text of a stored board that is not the solved one.
pub solve_answers-Stored :
    (parse_int : Bytes → Option ℤ) (n : ℕ) (z : Puzzle) (p : Player) (dist : ℕ → ℕ) (id d : ℕ)
    (a : Node)
    → ((v : ℕ) → v < 2 ^ 31 → parse_int (to_string v) ≡ some (pos v))
    → 1 ≤ n
    → n ≤ 256
    → IsPuzzle n z dist
    → get_puzzle p.graphs p.size ≡ ok z
    → Stored z.graph id a
    → dist id ≡ suc d
    → (s : Bytes) × (bs : List Node) × (bit_set_to_string z.taquin.n z.taquin.nbits z.taquin.size_bs
          a.taquin_bs
        ≡ ok s)
      × IsFewest z.taquin a bs
      × (solve_answers parse_int (length bs - 1) s p ≡ answers 0 bs)
      × (length bs ≡ dist id)
solve_answers-Stored parse_int n z p dist id d a reads h k v in_use stored e =
    let reach = v.explored.valid.reached id a stored in
    let found = v.explored.valid.by_id id a stored in
    let start = IsSolved-IsBoard n z.taquin h v.board in
    let size = sizes n z.taquin v.board in
    let board = Reach-IsBoard z.taquin start size a reach in
    let (s, printed, read) =
      printed_read parse_int n z.taquin reads h k v.board a.taquin_bs board.bounded in
    let read_id =
      read_id-found n h z dist v p.graphs p.size in_use parse_int s p.id id a.taquin_bs read
        found in
    let (bs, route, count, same_answers) =
      solve_answers-Route_from n h z dist v p.graphs p.size in_use parse_int s p.step p.id id d a
        read_id stored e in
    let last : length bs - 1 ≡ d = omega (arith, count) in
    let fewest : (cs : List Node) → Route z.taquin a cs → length bs ≤ length cs = λ cs other_route.
      omega (
        arith,
        count,
        e,
        fewest_slides z.taquin z.graph v.explored z.paths dist v.shortest start size a cs
            other_route id stored,
      ) in
    (s, bs, printed, record { route = route; fewest = fewest }, rw last same_answers, count ∙ sym e)

module _ (poll : List Triple → Option (Triple × List Triple)) (parse_int : Bytes → Option ℤ) (n : ℕ)
    (z : Puzzle) (p : Player) (a : Node) where
  -- Let `Graph(n)`, 1 <= n <= 256, be the graph in use, where the queue polls least triples and `parseInt`
  -- reads what is printed of a number below 2^31. A board other than the solved one that slides lead to has
  -- a text, and there are slides from it down to the solved board, as few as there can be, such that the
  -- player that gets this text and an acknowledgement of each of its answers but the last answers the places
  -- of the blank after each slide, numbered from 1.
  pub solve_answers-Route :
      IsPoll poll
      → ((v : ℕ) → v < 2 ^ 31 → parse_int (to_string v) ≡ some (pos v))
      → 1 ≤ n
      → n ≤ 256
      → new_graph poll n ≡ some (ok z)
      → get_puzzle p.graphs p.size ≡ ok z
      → Reach z.taquin a
      → a.taquin_bs ≢ z.taquin.taquin_bs
      → (s : Bytes) × (bs : List Node) × (bit_set_to_string z.taquin.n z.taquin.nbits
            z.taquin.size_bs a.taquin_bs
          ≡ ok s)
        × IsFewest z.taquin a bs
        × (solve_answers parse_int (length bs - 1) s p ≡ answers 0 bs)
  solve_answers-Route least reads h k made in_use reach other =
      let (dist, v) = the_puzzle poll n z least h k made in
      let (id, stored, _) = v.explored.all a reach in
      let (d, e) = away n z dist v id a stored other in
      let (s, bs, printed, fewest, same, _) =
        solve_answers-Stored parse_int n z p dist id d a reads h k v in_use stored e in
      (s, bs, printed, fewest, same)
