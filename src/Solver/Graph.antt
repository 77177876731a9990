-- ===== src/Solver/Graph.antt =====
-- solve/Graph.java, solve/Node.java and solve/Triple.java: the breadth-first search over all boards. The
-- `HashMap` is an association list, and the boards put into it are never written again. A `Triple` of the
-- queue holds the id of a board and the place of its blank.
pub mod Slides
pub mod Sliding
pub mod Store
pub mod Edges
pub mod Order
pub mod Valid
pub mod Offer
pub mod Search
pub mod Layers
pub mod Complete
use taquin_client_project.Base.{
  ℕ, zero, suc, ◌+◌, ◌-◌, ◌*◌, ◌≡◌, ℤ, pos, negsuc, pos_part, neg_part, ◌+ℤ◌, is_nonneg, ltb_ℤ, not,
  Bool, true, false, leb, ◌==◌, ◌&&◌, if◌then◌else◌, Option, none, some, List, [], ◌∷◌, ◌++◌,
  length,
}
use taquin_client_project.Result.{Result, ok, err, out_of_range, null_pointer, ◌>>=◌}
use taquin_client_project.Solver.Bits.{position, get_value, set_value}
use taquin_client_project.Solver.Board.{Taquin}

pub record Node : Type 0 where
  pub taquin_bs : ℕ
  pub i_puzzle : ℕ
  pub j_puzzle : ℕ

pub record Triple : Type 0 where
  pub first : ℕ
  pub second : ℕ
  pub third : ℕ

pub record Graph : Type 0 where
  pub ids : List (ℕ × ℕ)
  pub reverse_ids : List Node
  pub graph : List (List ℕ)

-- `ArrayList.get`
abbrev pub get {ℓ} : {A : Type ℓ} → List A → ℕ → Result A
get [] i = err out_of_range
get (x ∷ xs) zero = ok x
get (x ∷ xs) (suc i) = get xs i

-- `HashMap.get`, and `containsKey`
abbrev pub find_id : List (ℕ × ℕ) → ℕ → Option ℕ
find_id [] b = none
find_id ((k, v) ∷ ids) b = if k == b then some v else find_id ids b

abbrev pub contains_key : List (ℕ × ℕ) → ℕ → Bool
contains_key ids b = elim (find_id ids b) [ none ↦ false | some v ↦ true ]

-- An `Integer` of the map taken as an `int`.
abbrev pub unbox : Option ℕ → Result ℕ
unbox none = err null_pointer
unbox (some v) = ok v

unfoldable pub add_node : ℕ → ℕ → ℕ → Graph → Bool × Graph
add_node b i j g =
    if not (contains_key g.ids b)
    then (
      true,
      record {
        ids = (b, length g.reverse_ids) ∷ g.ids;
        reverse_ids = g.reverse_ids ++ record { taquin_bs = b; i_puzzle = i; j_puzzle = j } ∷ [];
        graph = g.graph ++ [] ∷ [];
      },
    )
    else (false, g)

-- `graph.get(id).add(other)`
unfoldable pub add_to : List (List ℕ) → ℕ → ℕ → Result (List (List ℕ))
add_to [] id other = err out_of_range
add_to (e ∷ es) zero other = ok ((e ++ other ∷ []) ∷ es)
add_to (e ∷ es) (suc id) other = add_to es id other >>= λ rest. ok (e ∷ rest)

unfoldable pub add_edge : ℕ → ℕ → List (List ℕ) → Result (List (List ℕ))
unfolding add_to
add_edge id1 id2 es = add_to es id1 id2 >>= λ es'. add_to es' id2 id1

-- The arrays `x` and `y`, side by side.
abbrev pub deltas : List (ℤ × ℤ)
deltas = (pos 1, pos 0) ∷ (pos 0, pos 1) ∷ (negsuc 0, pos 0) ∷ (pos 0, negsuc 0) ∷ []

abbrev pub validation_pos : ℤ → ℤ → ℤ → Bool
validation_pos i lower upper = not (ltb_ℤ i lower) && not (ltb_ℤ upper i)

-- The place that a step from row i and column j leads to, where it is on the board.
unfoldable pub target : ℕ → ℕ → ℕ → ℤ × ℤ → Option (ℕ × ℕ)
target n i j (dx, dy) =
    if validation_pos (pos i +ℤ dx) (pos 0) (pos (n - 1))
      && validation_pos (pos j +ℤ dy) (pos 0) (pos (n - 1))
    then some (pos_part (pos i +ℤ dx), pos_part (pos j +ℤ dy))
    else none

-- The board with the tile of row i' and column j' moved to row i and column j.
unfoldable pub slide : Taquin → ℕ → ℕ → ℕ → ℕ → ℕ → Result ℕ
unfolding get_value set_value
slide t b i j i' j' = get_value (position t.n i' j') t.nbits t.size_bs b >>= λ move. ok (
    set_value (position t.n i' j') t.nbits t.size_bs
      (set_value (position t.n i j) t.nbits t.size_bs b (pos move)) (pos 0))

-- A board that a slide leads to: stored, joined and queued where it is new.
unfoldable pub offer : ℕ → ℕ → ℕ → ℕ → Graph × List Triple → Result (Graph × List Triple)
unfolding add_node add_edge
offer id b i j (g, queue) =
    if not (contains_key g.ids b)
    then (let g' = (add_node b i j g).1 in
        unbox (find_id g'.ids b) >>= λ id'. add_edge id' id g'.graph >>= λ es.
        ok (record g' { graph = es }, queue ++ record { first = id'; second = i; third = j } ∷ []))
    else ok (g, queue)

-- The body of the `for` loop.
unfoldable pub try_move :
    Taquin → Triple → ℤ × ℤ → Graph × List Triple → Result (Graph × List Triple)
unfolding target slide offer
try_move t triple d (g, queue) = elim (target t.n triple.second triple.third d) [
  | none ↦ ok (g, queue)
  | some (i, j) ↦ get g.reverse_ids triple.first >>= λ node.
      slide t node.taquin_bs triple.second triple.third i j >>= λ b.
      offer triple.first b i j (g, queue)
]

unfoldable pub visit :
    Taquin → Triple → List (ℤ × ℤ) → Graph × List Triple → Result (Graph × List Triple)
unfolding try_move
visit t triple [] s = ok s
visit t triple (d ∷ ds) s = try_move t triple d s >>= visit t triple ds

-- The `while` loop of `creatGraph`, on fuel.
unfoldable pub search : ℕ → Taquin → Graph → List Triple → Option (Result Graph)
unfolding visit
search zero t g queue = none
search (suc fuel) t g [] = some (ok g)
search (suc fuel) t g (triple ∷ queue) = elim (visit t triple deltas (g, queue)) [
  | err e ↦ some (err e)
  | ok (g', queue') ↦ search fuel t g' queue'
]

unfoldable pub creat_graph : ℕ → Taquin → Option (Result Graph)
unfolding search add_node
creat_graph fuel t =
    let g =
      (add_node t.taquin_bs t.i_puzzle t.j_puzzle
        (record { ids = []; reverse_ids = []; graph = [] })).1 in
    elim (unbox (find_id g.ids t.taquin_bs)) [
      | err e ↦ some (err e)
      | ok id ↦
          search fuel t g (record { first = id; second = t.i_puzzle; third = t.j_puzzle } ∷ [])
    ]
