-- ===== src/Solver/Player/Constructor.antt =====
-- The constructor of solve/Graph.java.
use taquin_client_project.Base.{ℕ, ◌+◌, ◌^◌, ◌<◌, ◌≤◌, ◌≡◌, refl, arith, Option, some, List, length}
use taquin_client_project.Result.{ok}
use taquin_client_project.Solver.Board.{Taquin, new_taquin}
use taquin_client_project.Solver.Board.Solved.{IsSolved}
use taquin_client_project.Solver.Graph.{Triple, Graph, creat_graph}
use taquin_client_project.Solver.Graph.Store.{get_elem?_lt}
use taquin_client_project.Solver.Graph.Edges.{Edge}
use taquin_client_project.Solver.Graph.Valid.{solved, IsGraph}
use taquin_client_project.Solver.Graph.Complete.{IsExplored, creat_graph-IsExplored_from_n}
use taquin_client_project.Solver.Paths.{IsPoll, Paths, dijkstra}
use taquin_client_project.Solver.Paths.Shortest.{IsShortest, degrees, dijkstra-IsShortest}
use taquin_client_project.Solver.Player.{Puzzle, new_graph}

-- What the constructor of `Graph` makes.
pub record IsPuzzle (n : ℕ) (z : Puzzle) (dist : ℕ → ℕ) : Type 0 where
  pub board : IsSolved n z.taquin
  pub explored : IsExplored z.taquin z.graph
  pub shortest : IsShortest z.graph.graph z.paths dist

new_graph-made :
    (poll : List Triple → Option (Triple × List Triple)) (n : ℕ) (t : Taquin) (g : Graph)
    (p : Paths)
    → new_taquin 17 n ≡ some (ok t)
    → creat_graph (2 ^ t.size_bs + 1) t ≡ some (ok g)
    → dijkstra poll (degrees g.graph + 2) g ≡ some (ok p)
    → new_graph poll n ≡ some (ok (record { taquin = t; graph = g; paths = p }))
unfolding new_graph
new_graph-made poll n t g p e f h = rw (e, new_graph) (rw (f, new_graph) (rw (h, new_graph) refl))

-- For 1 <= n <= 256 the constructor `Graph(n)` ends and throws nothing, whichever of the least triples the
-- queue polls: its board is the solved one, its lists have the boards that slides lead to, and its parents
-- go down to id 0 by distances that no edge shortens, with no board further away than the farthest one.
pub new_graph-IsPuzzle :
    (poll : List Triple → Option (Triple × List Triple)) (n : ℕ)
    → IsPoll poll
    → 1 ≤ n
    → n ≤ 256
    → (z : Puzzle) × (dist : ℕ → ℕ) × (new_graph poll n ≡ some (ok z)) × IsPuzzle n z dist
new_graph-IsPuzzle poll n least h k =
    let (t, made, v, g, found, w) = creat_graph-IsExplored_from_n n h k in
    let some_id : 0 < length g.graph =
      omega (arith, w.valid.lists, get_elem?_lt g.reverse_ids 0 (solved t) w.first) in
    let (p, dist, settled, s) =
      dijkstra-IsShortest poll g least (inside t g w.valid) some_id w.connected in
    (
      record { taquin = t; graph = g; paths = p },
      dist,
      new_graph-made poll n t g p made found settled,
      record { board = v; explored = w; shortest = s },
    )
  where
    inside :
        (t : Taquin) (g : Graph) → IsGraph t g → (k o : ℕ) → Edge g.graph k o → o < length g.graph
    inside t g v k o edge =
        let (a, b, _, at_o, _) = v.edges k o edge in
        omega (arith, v.lists, get_elem?_lt g.reverse_ids o b at_o)
