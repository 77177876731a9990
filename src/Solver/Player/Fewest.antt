-- ===== src/Solver/Player/Fewest.antt =====
-- No way back to the solved board is shorter than the distance that `dijkstra` finds.
use taquin_client_project.Base.{
  ℕ, zero, suc, ◌*◌, ◌<◌, ◌≤◌, ◌≡◌, ◌∙◌, sym, subst, arith, Bool-cases, ◌==◌, inl, inr, List, [],
  ◌∷◌, length,
}
use mathlib.Core.Option
use taquin_client_project.Solver.Board.{Taquin}
use taquin_client_project.Solver.Graph.{Node, Graph}
use taquin_client_project.Solver.Graph.Slides.{IsBoard, Slide}
use taquin_client_project.Solver.Graph.Sliding.{slides_back}
use taquin_client_project.Solver.Graph.Offer.{Reach-IsBoard}
use taquin_client_project.Solver.Graph.Store.{get_elem?_lt}
use taquin_client_project.Solver.Graph.Valid.{solved, Stored, move}
use taquin_client_project.Solver.Graph.Complete.{IsExplored}
use taquin_client_project.Solver.Graph.Edges.{Parent, parents_agree}
use taquin_client_project.Solver.Paths.{Paths}
use taquin_client_project.Solver.Paths.Shortest.{IsShortest}

-- The boards after each of some slides, down to the solved one.
pub data Route (t : Taquin) : Node → List Node → Type 0 where
  home : Route t (solved t) []
  onward : (a b : Node) (bs : List Node) → Slide t a b → Route t b bs → Route t a (b ∷ bs)

-- The boards of some slides down to the solved one, as few as there can be.
pub record IsFewest (t : Taquin) (a : Node) (bs : List Node) : Type 0 where
  pub route : Route t a bs
  pub fewest : (cs : List Node) → Route t a cs → length bs ≤ length cs

module _ (t : Taquin) (g : Graph) (w : IsExplored t g) (p : Paths) (dist : ℕ → ℕ)
    (s : IsShortest g.graph p dist) where
  parent_dist_below :
      (n id q : ℕ)
      → dist id < n
      → 0 < id
      → id < length g.graph
      → Parent g.graph id q
      → dist id ≡ suc (dist q)
  parent_dist_below zero id q h k l parent = absurd (omega arith)
  parent_dist_below (suc n) id q h k l parent =
      let (r, _, edge, down) = s.down id k l in
      elim (w.layered.ordered.tree r id edge) [
        | inl (_, other) ↦
            let same : r ≡ q = parents_agree g.graph id r q other parent in rw (sym same) down
        | inr (pos, child) ↦
            let within : r < length g.graph = get_elem?_lt g.graph r edge.0 edge.1 in
            absurd
              (omega (arith, parent_dist_below n r id (omega (arith, down)) pos within child, down))
      ]

  parent_dist :
      (id q : ℕ) → 0 < id → id < length g.graph → Parent g.graph id q → dist id ≡ suc (dist q)
  parent_dist id q = parent_dist_below (suc (dist id)) id q (omega arith)

  dist_mono_below : (n id id' : ℕ) → id' < n → id ≤ id' → id' < length g.graph → dist id ≤ dist id'
  dist_mono_below zero id id' h k l = absurd (omega arith)
  dist_mono_below (suc n) zero id' h k l = omega (arith, s.root.0)
  dist_mono_below (suc n) (suc id) id' h k l = elim (Bool-cases (suc id == id')) [
    | inl same ↦ let eq : suc id ≡ id' = ground arith in rw eq (omega arith)
    | inr other ↦
        let less : suc id < id' = ground arith in
        let (q, parent, _, _) = w.layered.ordered.parents (suc id) (omega arith) (omega arith) in
        let (q', parent', before, _) = w.layered.ordered.parents id' (omega arith) l in
        let rising =
          w.layered.ordered.rising (suc id) id' q q' (omega arith) less l parent parent' in
        omega (
          arith,
          parent_dist (suc id) q (omega arith) (omega arith) parent,
          parent_dist id' q' (omega arith) l parent',
          dist_mono_below n q q' (omega arith) rising (omega arith),
        )
  ]

  -- A slide changes the distance by one at most.
  near_dist :
      (ia ib : ℕ) (a b : Node)
      → Stored g ia a
      → Stored g ib b
      → Slide t a b
      → dist ib ≤ suc (dist ia)
  near_dist ia ib a b sa sb slide =
      let within : ia < length g.graph =
        omega (arith, w.valid.lists, get_elem?_lt g.reverse_ids ia a sa) in
      let (ib', sb', how) = w.layered.near ia a within sa b slide in
      let same : ib' ≡ ib =
        Option.some-injective ib' ib (sym (w.valid.by_id ib' b sb') ∙ w.valid.by_id ib b sb) in
      let known : ib < length g.graph =
        omega (arith, w.valid.lists, get_elem?_lt g.reverse_ids ib b sb) in
      elim how [
        | inl e ↦ let first : ib ≡ 0 = sym same ∙ e in rw first (omega (arith, s.root.0))
        | inr (q, parent, most) ↦
            let parent' : Parent g.graph ib q = subst (λ x. Parent g.graph x q) same parent in
            near_parent ia ib q within known most parent'
      ]
    where
      near_parent :
          (ia ib q : ℕ)
          → ia < length g.graph
          → ib < length g.graph
          → q ≤ ia
          → Parent g.graph ib q
          → dist ib ≤ suc (dist ia)
      near_parent ia zero q h k l parent = omega (arith, s.root.0)
      near_parent ia (suc ib) q h k l parent = omega (
        arith,
        parent_dist (suc ib) q (omega arith) k parent,
        dist_mono_below (suc ia) q ia (omega arith) l h,
      )

  module _ (start : IsBoard t (solved t)) (size : t.size_bs ≡ t.n * t.n * t.nbits) where
    pub fewest_slides :
        (a : Node) (bs : List Node) → Route t a bs → (ia : ℕ) → Stored g ia a → dist ia ≤ length bs
    fewest_slides _ _ home ia sa =
        let first : ia ≡ 0 =
          Option.some-injective ia 0
            (sym (w.valid.by_id ia (solved t) sa) ∙ w.valid.by_id 0 (solved t) w.first) in
        rw first (omega (arith, s.root.0))
    fewest_slides _ _ (onward a b bs slide route) ia sa =
        let (ib, sb, _) = w.all b (move a b (w.valid.reached ia a sa) slide) in
        let back : Slide t b a =
          slides_back t a b (Reach-IsBoard t start size a (w.valid.reached ia a sa)) slide in
        omega (arith, near_dist ib ia b a sb sa back, fewest_slides b bs route ib sb)
