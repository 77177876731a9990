-- ===== src/Solver/Player/Hardest.antt =====
-- The board that `getTaquin` of TaquinClient.java asks the server to solve.
use taquin_client_project.Base.{
  ℕ, zero, suc, ◌-◌, ◌<◌, ◌≤◌, ◌≡◌, ◌∙◌, refl, ap, sym, arith, inl, inr, Bytes, read_decimal,
  read_decimal-to_string, ℤ, pos, Option, some, List, [], ◌∷◌, length,
}
use mathlib.Core.Option
use taquin_client_project.Result.{ok}
use taquin_client_project.Solver.Board.{Taquin}
use taquin_client_project.Solver.Graph.{Node, Triple}
use taquin_client_project.Solver.Graph.Sliding.{slide-Slide}
use taquin_client_project.Solver.Graph.Offer.{Reach-IsBoard}
use taquin_client_project.Solver.Graph.Store.{get_ok, get_elem?-within, get_elem?_lt}
use taquin_client_project.Solver.Graph.Valid.{solved, here, move, Reach, Stored}
use taquin_client_project.Solver.Graph.Complete.{IsSolved-IsBoard}
use taquin_client_project.Solver.Paths.{IsPoll}
use taquin_client_project.Solver.Text.{bit_set_to_string}
use taquin_client_project.Solver.Player.{
  Puzzle, Player, new_graph, get_puzzle, get_taquin, minus_two,
}
use taquin_client_project.Solver.Player.Constructor.{IsPuzzle}
use taquin_client_project.Solver.Player.Fewest.{Route, IsFewest, fewest_slides}
use taquin_client_project.Solver.Player.Route.{next_answers-Route}
use taquin_client_project.Solver.Player.Solves.{printed_read, sizes, the_puzzle}

-- As few slides as there can be, from a board that is as far from the solved one as any.
pub record IsHardest (t : Taquin) (a : Node) (bs : List Node) : Type 0 where
  pub fewest : IsFewest t a bs
  pub hardest : (b : Node) → Reach t b → (cs : List Node) × Route t b cs × (length cs ≤ length bs)

module _ (n : ℕ) (some_cell : 1 ≤ n) (z : Puzzle) (dist : ℕ → ℕ) (v : IsPuzzle n z dist) where
  -- From each stored board there are as many slides to the solved one as its distance says.
  stored-Route :
      (id : ℕ) (a : Node)
      → Stored z.graph id a
      → (bs : List Node) × Route z.taquin a bs × (length bs ≡ dist id)
  stored-Route id a s =
      let (bs, route, count, _) =
        next_answers-Route n some_cell z dist v (z ∷ []) (pos 0) refl (dist id) 0 id a s refl in
      (bs, route, count)

  pub farthest-Stored : (a : Node) × Stored z.graph z.paths.farthest_node a
  farthest-Stored =
      get_elem?-within z.graph.reverse_ids z.paths.farthest_node
        (omega (arith, v.shortest.within, v.explored.valid.lists))

  no_farther : (id : ℕ) (b : Node) → Stored z.graph id b → dist id ≤ dist z.paths.farthest_node
  no_farther id b s =
      v.shortest.farthest id
        (omega (arith, v.explored.valid.lists, get_elem?_lt z.graph.reverse_ids id b s))

  -- Fewest slides from the farthest board are the most that any board needs.
  pub fewest-IsHardest :
      (a : Node) (bs : List Node)
      → IsFewest z.taquin a bs
      → length bs ≡ dist z.paths.farthest_node
      → IsHardest z.taquin a bs
  fewest-IsHardest a bs fewest count = record {
    fewest = fewest;
    hardest = λ b reach.
        let (id, s, _) = v.explored.all b reach in
        let (cs, route, far) = stored-Route id b s in
        (cs, route, omega (arith, count, far, no_farther id b s));
  }

  farthest-IsHardest :
      (a : Node)
      → Stored z.graph z.paths.farthest_node a
      → (bs : List Node) × IsHardest z.taquin a bs
  farthest-IsHardest a s =
      let id = z.paths.farthest_node in
      let (bs, route, count) = stored-Route id a s in
      let start = IsSolved-IsBoard n z.taquin some_cell v.board in
      let size = sizes n z.taquin v.board in
      let fewest : (cs : List Node) → Route z.taquin a cs → length bs ≤ length cs = λ cs other.
        omega (
          arith,
          count,
          fewest_slides z.taquin z.graph v.explored z.paths dist v.shortest start size a cs other id
              s,
        ) in
      (bs, fewest-IsHardest a bs (record { route = route; fewest = fewest }) count)

  -- On two rows or more the farthest board is not the solved one.
  pub farthest_away : 2 ≤ n → (d : ℕ) × (dist z.paths.farthest_node ≡ suc d)
  farthest_away rows =
      let start = IsSolved-IsBoard n z.taquin some_cell v.board in
      let (b, _, slide) =
        slide-Slide z.taquin (sizes n z.taquin v.board) (solved z.taquin) (n - 2) (n - 1) start.row
          start.column start.bounded
          (
            omega (arith, v.board.side),
            omega (arith, v.board.side),
            inr (inr (inl (omega (arith, v.board.row), omega (arith, v.board.column)))),
          ) in
      let other : Node = record { taquin_bs = b; i_puzzle = n - 2; j_puzzle = n - 1 } in
      let (id, s, _) = v.explored.all other (move (solved z.taquin) other here slide) in
      let near = no_farther id other s in
      (
        dist z.paths.farthest_node - 1,
        omega (arith, near, somewhere id other s (omega (arith, v.board.row))),
      )
    where
      somewhere :
          (id : ℕ) (b : Node) → Stored z.graph id b → b.i_puzzle < z.taquin.i_puzzle → 0 < dist id
      somewhere zero b s less =
          let same = Option.some-injective b (solved z.taquin) (sym s ∙ v.explored.first) in
          absurd (omega (arith, ap (λ (x : Node). x.i_puzzle) same))
      somewhere (suc id) b s less =
          let (q, _, _, down) = v.shortest.down (suc id) (omega arith) (
            omega (arith, v.explored.valid.lists, get_elem?_lt z.graph.reverse_ids (suc id) b s)) in
          omega (arith, down)

pub get_taquin-farthest :
    (size : ℤ) (p : Player) (z : Puzzle) (a : Node) (s : Bytes)
    → get_puzzle p.graphs (minus_two size) ≡ ok z
    → Stored z.graph z.paths.farthest_node a
    → bit_set_to_string z.taquin.n z.taquin.nbits z.taquin.size_bs a.taquin_bs ≡ ok s
    → get_taquin size p ≡ (record p { size = minus_two size }, ok s)
unfolding get_taquin
get_taquin-farthest size p z a s in_use stored printed =
    rw (in_use, get_ok z.graph.reverse_ids z.paths.farthest_node a stored, printed) refl

-- Let `Graph(n)`, 1 <= n <= 256, be the graph that `getTaquin(n)` finds in the list, where the queue polls
-- least triples. `getTaquin(n)` answers the text of a board that slides lead to, such that some slides lead
-- from it down to the solved board, as few as there can be, and every board that slides lead to has a way
-- down of at most that many. The client then has the size of that graph, and is otherwise as it was.
pub get_taquin-IsHardest :
    (poll : List Triple → Option (Triple × List Triple)) (n : ℕ) (z : Puzzle) (p : Player)
    → IsPoll poll
    → 1 ≤ n
    → n ≤ 256
    → new_graph poll n ≡ some (ok z)
    → get_puzzle p.graphs (minus_two (pos n)) ≡ ok z
    → (s : Bytes) × (a : Node) × (bs : List Node) × (get_taquin (pos n) p
        ≡ (record p { size = minus_two (pos n) }, ok s))
      × (bit_set_to_string z.taquin.n z.taquin.nbits z.taquin.size_bs a.taquin_bs ≡ ok s)
      × Reach z.taquin a
      × IsHardest z.taquin a bs
get_taquin-IsHardest poll n z p least h k made in_use =
    let (dist, v) = the_puzzle poll n z least h k made in
    let (a, stored) = farthest-Stored n h z dist v in
    let (bs, hardest) = farthest-IsHardest n h z dist v a stored in
    let reach = v.explored.valid.reached z.paths.farthest_node a stored in
    let board =
      Reach-IsBoard z.taquin (IsSolved-IsBoard n z.taquin h v.board) (sizes n z.taquin v.board) a
        reach in
    let (s, printed, _) =
      printed_read (λ t. Option.map pos (read_decimal t)) n z.taquin
        (λ w _. ap (Option.map pos) (read_decimal-to_string w)) h k v.board a.taquin_bs
        board.bounded in
    (s, a, bs, get_taquin-farthest (pos n) p z a s in_use stored printed, printed, reach, hardest)
