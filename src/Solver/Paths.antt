-- ===== src/Solver/Paths.antt =====
-- `dijkstra` of solve/Graph.java, and solve/TripleComparator.java. A `PriorityQueue` is the list of its
-- triples, which hold a cost, an id and a parent. Which of several least triples it polls is left open, so
-- `poll` is a parameter. Costs and ids are below 2^31, so their differences do not wrap.
pub mod Lists
pub mod Settled
pub mod Polled
pub mod Rounds
pub mod Shortest
use taquin_client_project.Base.{
  ℕ, zero, suc, ◌+◌, ◌==◌, ◌≡◌, ◌≤◌, ◌⊎◌, ◌↔◌, ℤ, sub_ℕ, is_nonneg, not, Bool, true, false, ltb,
  if◌then◌else◌, Option, none, some, List, [], ◌∷◌, ◌++◌, length,
}
use mathlib.Core.List.{Memᴰ}
use taquin_client_project.Result.{Result, ok, err, out_of_range, ◌>>=◌}
use taquin_client_project.Solver.Graph.{Triple, Graph, get}

-- `TripleComparator.compare`, where the second test repeats the first.
unfoldable pub compare : Triple → Triple → ℤ
compare o1 o2 =
    if not (o1.first == o2.first)
    then sub_ℕ o1.first o2.first
    else (if not (o1.first == o2.first) then sub_ℕ o1.second o2.second else sub_ℕ o1.third o2.third)

-- What the documentation of `PriorityQueue` says of `poll`: a least triple and the queue without it.
pub record IsPoll (poll : List Triple → Option (Triple × List Triple)) : Type 0 where
  pub empty : poll [] ≡ none
  pub full :
      (y : Triple) (ys : List Triple)
      → (x : Triple) × (rest : List Triple) × (poll (y ∷ ys) ≡ some (x, rest))
        × (length rest ≡ length ys)
        × ((z : Triple) → Memᴰ z (y ∷ ys) ↔ ((z ≡ x) ⊎ Memᴰ z rest))
        × ((z : Triple) → Memᴰ z (y ∷ ys) → is_nonneg (compare z x) ≡ true)

pub record Paths : Type 0 where
  pub parents : List ℕ
  pub marks : List Bool
  pub farthest_node : ℕ
  pub farthest_distance : ℕ

-- `ArrayList.set`
unfoldable pub put {ℓ} : {A : Type ℓ} → List A → ℕ → A → Result (List A)
put [] i v = err out_of_range
put (x ∷ xs) zero v = ok (v ∷ xs)
put (x ∷ xs) (suc i) v = put xs i v >>= λ rest. ok (x ∷ rest)

-- The loop over the neighbours, which adds a triple for each.
unfoldable pub offers : ℕ → ℕ → List ℕ → List Triple
offers cost parent [] = []
offers cost parent (o ∷ es) =
    record { first = cost; second = o; third = parent } ∷ offers cost parent es

-- The body of the `while` loop behind the poll.
unfoldable pub settle : Graph → Triple → Paths × List Triple → Result (Paths × List Triple)
unfolding put offers
settle g x (s, pq) = get s.marks x.second >>= λ marked.
    if marked
    then (put s.marks x.second false >>= λ marks. put s.parents x.second x.third >>= λ parents.
        get g.graph x.second >>= λ es. ok (
          record {
            parents = parents;
            marks = marks;
            farthest_node = if ltb s.farthest_distance x.first then x.second else s.farthest_node;
            farthest_distance =
                if ltb s.farthest_distance x.first then x.first else s.farthest_distance;
          },
          pq ++ offers (x.first + 1) x.second es,
        ))
    else ok (s, pq)

-- The `while` loop of `dijkstra`, on fuel.
unfoldable pub settle_all :
    (List Triple → Option (Triple × List Triple))
    → ℕ
    → Graph
    → Paths
    → List Triple
    → Option (Result Paths)
unfolding settle
settle_all poll zero g s pq = none
settle_all poll (suc fuel) g s pq = elim (poll pq) [
  | none ↦ some (ok s)
  | some (x, rest) ↦ elim (settle g x (s, rest)) [
    | err e ↦ some (err e)
    | ok (s', pq') ↦ settle_all poll fuel g s' pq'
  ]
]

-- The loop that fills `parents` and `marks`, with m ids left and i the next one.
unfoldable pub unmarked : ℕ → ℕ → List ℕ → List Bool → List ℕ × List Bool
unmarked zero i parents marks = (parents, marks)
unmarked (suc m) i parents marks = unmarked m (i + 1) (parents ++ i ∷ []) (marks ++ true ∷ [])

unfoldable pub dijkstra :
    (List Triple → Option (Triple × List Triple)) → ℕ → Graph → Option (Result Paths)
unfolding settle_all unmarked
dijkstra poll fuel g =
    let (parents, marks) = unmarked (length g.graph) 0 [] [] in
    settle_all poll fuel g
      (record { parents = parents; marks = marks; farthest_node = 0; farthest_distance = 0 })
      (record { first = 0; second = 0; third = 0 } ∷ [])
