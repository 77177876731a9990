-- ===== src/Solver/Player.antt =====
-- TaquinClient.java: what the Java client answers to the server, and the constructor of solve/Graph.java. A
-- method returns the client it leaves and its answer, or what it throws.
pub mod Constructor
pub mod Fewest
pub mod Route
pub mod Solves
pub mod Hardest
use taquin_client_project.Base.{
  ℕ, zero, suc, ◌+◌, ◌^◌, Bytes, to_string, ℤ, pos, negsuc, to_int32, ◌+ℤ◌, Option, none, some,
  List, [], ◌∷◌, ◌++◌,
}
use taquin_client_project.Result.{Result, ok, err, out_of_range, ◌>>=◌}
use taquin_client_project.Solver.Board.{Taquin, new_taquin}
use taquin_client_project.Solver.Graph.{Triple, Graph, get, find_id, unbox, creat_graph}
use taquin_client_project.Solver.Paths.{Paths, dijkstra}
use taquin_client_project.Solver.Paths.Shortest.{degrees}
use taquin_client_project.Solver.Text.{bit_set_to_string, convert_to_bit_set}

-- A `Graph` behind its constructor.
pub record Puzzle : Type 0 where
  pub taquin : Taquin
  pub graph : Graph
  pub paths : Paths

abbrev then_do {ℓ κ} :
    {A : Type ℓ} {B : Type κ} → Option (Result A) → (A → Option (Result B)) → Option (Result B)
then_do none f = none
then_do (some (err e)) f = some (err e)
then_do (some (ok a)) f = f a

-- `Graph(n)`; `none` where the fuel of a loop runs out.
unfoldable pub new_graph :
    (List Triple → Option (Triple × List Triple)) → ℕ → Option (Result Puzzle)
unfolding new_taquin creat_graph dijkstra
new_graph poll n = then_do (new_taquin 17 n) λ t. then_do (creat_graph (2 ^ t.size_bs + 1) t) λ g.
    then_do (dijkstra poll (degrees g.graph + 2) g)
      λ p. some (ok (record { taquin = t; graph = g; paths = p }))

pub record Player : Type 0 where
  pub step : ℕ
  pub graphs : List Puzzle
  pub size : ℤ
  pub id : ℕ

-- `graphs.get(size)`
abbrev pub get_puzzle : List Puzzle → ℤ → Result Puzzle
get_puzzle zs (pos i) = get zs i
get_puzzle zs (negsuc i) = err out_of_range

-- The step and the place of the blank of the board at id.
unfoldable pub place_text : Player → Result Bytes
unfolding to_string
place_text p = get_puzzle p.graphs p.size >>= λ z. get z.graph.reverse_ids p.id >>= λ node.
    ok (to_string p.step ++ b' ' ∷ to_string node.i_puzzle ++ b' ' ∷ to_string node.j_puzzle)

-- `size_-=2` on an `int`
abbrev pub minus_two : ℤ → ℤ
minus_two size = to_int32 (size +ℤ negsuc 1)

unfoldable pub get_taquin : ℤ → Player → Player × Result Bytes
unfolding bit_set_to_string
get_taquin size p =
    let p' = record p { size = minus_two size } in
    (
      p',
      get_puzzle p'.graphs p'.size >>= λ z.
          get z.graph.reverse_ids z.paths.farthest_node >>= λ node.
          bit_set_to_string z.taquin.n z.taquin.nbits z.taquin.size_bs node.taquin_bs,
    )

-- `getParent(id)` of the graph in use
abbrev pub get_parent : Player → ℕ → Result ℕ
get_parent p id = get_puzzle p.graphs p.size >>= λ z. get z.paths.parents id

-- The id of the board of a text.
unfoldable pub read_id : (Bytes → Option ℤ) → Bytes → Player → Result ℕ
unfolding convert_to_bit_set
read_id parse_int matriz p = get_puzzle p.graphs p.size >>= λ z.
    convert_to_bit_set parse_int z.taquin.n z.taquin.nbits z.taquin.size_bs matriz >>= λ b.
    unbox (find_id z.graph.ids b)

unfoldable pub solve_taquin : (Bytes → Option ℤ) → Bytes → Player → Player × Result Bytes
unfolding read_id place_text
solve_taquin parse_int matriz p =
    let p1 = record p { step = 1 } in
    elim (read_id parse_int matriz p1) [
      | err e ↦ (p1, err e)
      | ok id ↦ elim (get_parent p1 id) [
        | err e ↦ (record p1 { id = id }, err e)
        | ok parent ↦ let p2 = record p1 { id = parent } in (p2, place_text p2)
      ]
    ]

unfoldable pub solve_next_step : Player → Player × Result Bytes
unfolding place_text
solve_next_step p = elim (get_parent p p.id) [
  | err e ↦ (p, err e)
  | ok parent ↦ let p' = record p { step = p.step + 1; id = parent } in (p', place_text p')
]

abbrev pub error_step : Player → Player × Result Bytes
error_step p = (p, place_text p)

-- `TaquinClient(hostnambe, username)` without what it passes on: the graphs of the sizes 2 and 3.
unfoldable pub new_player : (List Triple → Option (Triple × List Triple)) → Option (Result Player)
new_player poll = then_do (new_graph poll 2) λ z.
    then_do (new_graph poll 3)
      λ z'. some (ok (record { step = 0; graphs = z ∷ z' ∷ []; size = pos 0; id = 0 }))
