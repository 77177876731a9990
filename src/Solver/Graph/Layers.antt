-- ===== src/Solver/Graph/Layers.antt =====
-- The search ends, in the order of the distances from the solved board.
use taquin_client_project.Base.{
  ℕ, zero, suc, ◌*◌, ◌<◌, ◌≤◌, length, ◌==◌, Bool-cases, ◌≡◌, ◌⊎◌, refl, sym, subst, ◌∙◌, arith,
  inl, inr, some, List, [], ◌∷◌,
}
use mathlib.Core.Option
use mathlib.Core.List.{Memᴰ}
use taquin_client_project.Result.{ok}
use taquin_client_project.Solver.Board.{Taquin}
use taquin_client_project.Solver.Graph.{Node, Triple, Graph, deltas, search}
use taquin_client_project.Solver.Graph.Slides.{Slide, IsBoard}
use taquin_client_project.Solver.Graph.Store.{get_elem?_lt, get_elem?-within}
use taquin_client_project.Solver.Graph.Edges.{Connected, Parent, IsOrdered, Consecutive}
use taquin_client_project.Solver.Graph.Valid.{solved, Stored, IsGraph, work, Grows}
use taquin_client_project.Solver.Graph.Search.{
  Known, Closed, IsSearched, visit-Grows, visit-Closed, visit-IsSearched,
}

-- A board one slide away that was found from an id up to ia.
abbrev pub NearBy : Graph → ℕ → Node → Type 0
NearBy g ia b = (ib : ℕ) × Stored g ib b × ((ib ≡ 0) ⊎ ((p : ℕ) × Parent g.graph ib p × (p ≤ ia)))

-- The ids below m were polled in order, and what a slide leads to from them was found by then.
pub record IsLayered (t : Taquin) (g : Graph) (queue : List Triple) (m : ℕ) : Type 0 where
  pub ordered : IsOrdered g.graph queue m
  pub near : (ia : ℕ) (a : Node) → ia < m → Stored g ia a → (b : Node) → Slide t a b → NearBy g ia b

module _ (t : Taquin) (start : IsBoard t (solved t)) (size : t.size_bs ≡ t.n * t.n * t.nbits) where
  up_to_end : (m n : ℕ) (queue : List Triple) → Consecutive m queue n → m ≤ n
  up_to_end m n [] e = omega arith
  up_to_end m n (x ∷ queue) (e, c) = omega (arith, up_to_end (suc m) n queue c)

  rest-IsOrdered :
      (es : List (List ℕ)) (x : Triple) (queue : List Triple) (m : ℕ)
      → IsOrdered es (x ∷ queue) m
      → IsOrdered es queue (suc x.first)
  rest-IsOrdered es x queue m o = record {
    queued = rw o.queued.0 o.queued.1;
    parents = λ id h l.
        let (p, parent, less, polled) = o.parents id h l in
        (p, parent, less, omega (arith, o.queued.0, polled));
    rising = o.rising;
    tree = o.tree;
  }

  found_by :
      (g : Graph) (queue : List Triple) (m : ℕ) (b : Node)
      → IsGraph t g
      → IsOrdered g.graph queue (suc m)
      → Known g b
      → NearBy g m b
  found_by g queue m b v o (zero, s) = (zero, s, inl refl)
  found_by g queue m b v o (suc ib, s) =
      let (p, parent, _, polled) =
        o.parents (suc ib) (omega arith)
          (omega (arith, v.lists, get_elem?_lt g.reverse_ids (suc ib) b s)) in
      (suc ib, s, inr (p, parent, omega arith))

  visit-IsLayered :
      (g g' : Graph) (x : Triple) (queue queue' : List Triple) (a : Node) (m : ℕ)
      → IsGraph t g
      → IsLayered t g (x ∷ queue) m
      → Stored g x.first a
      → Grows t x.first g queue g' queue'
      → Closed t g' a
      → IsLayered t g' queue' (suc m)
  visit-IsLayered g g' x queue queue' a m v h s grows c =
      let first : x.first ≡ m = h.ordered.queued.0 in
      let ordered : IsOrdered g'.graph queue' (suc m) =
        subst (λ n. IsOrdered g'.graph queue' (suc n)) first
          (grows.ordered (rest-IsOrdered g.graph x queue m h.ordered)) in
      record { ordered = ordered; near = near first ordered }
    where
      known : (ia : ℕ) (b : Node) → Stored g' ia b → ia < m → Stored g ia b
      known ia b sb l =
          let (b0, s0) =
            get_elem?-within g.reverse_ids ia
              (omega (arith, v.lists, up_to_end m (length g.graph) (x ∷ queue) h.ordered.queued)) in
          let same : b0 ≡ b = Option.some-injective b0 b (sym (grows.kept ia b0 s0) ∙ sb) in
          subst (Stored g ia) same s0

      near :
          x.first ≡ m
          → IsOrdered g'.graph queue' (suc m)
          → (ia : ℕ) (b : Node) → ia < suc m
          → Stored g' ia b
          → (d : Node) → Slide t b d
          → NearBy g' ia d
      near first ordered ia b l sb d one = elim (Bool-cases (ia == m)) [
        | inl now ↦
            let here : ia ≡ x.first = ground (arith, first) in
            let same : a ≡ b =
              Option.some-injective a b (sym (grows.kept x.first a s) ∙ (rw here at sb)) in
            rw (here, first)
              (found_by g' queue' m d grows.valid ordered
                (c d (subst (λ y. Slide t y d) (sym same) one)))
        | inr before ↦
            let (ib, sd, how) = h.near ia b (ground arith) (known ia b sb (ground arith)) d one in
            (
              ib,
              grows.kept ib d sd,
              elim how [
                | inl e ↦ inl e
                | inr (p, parent, most) ↦ inr (p, grows.heads ib p parent, most)
              ],
            )
      ]

  pub search-IsSearched :
      (fuel : ℕ) (g : Graph) (queue : List Triple) (m : ℕ)
      → IsSearched t start size g queue
      → IsLayered t g queue m
      → work t g queue < fuel
      → (g' : Graph) × (search fuel t g queue ≡ some (ok g'))
        × IsSearched t start size g' []
        × ((id : ℕ) (a : Node) → Stored g id a → Stored g' id a)
        × (Connected g.graph → Connected g'.graph)
        × IsLayered t g' [] (length g'.graph)
  unfolding search
  search-IsSearched zero g queue m h k l = absurd (omega arith)
  search-IsSearched (suc fuel) g [] m h k l =
      (g, refl, h, λ id a s. s, λ c. c, subst (IsLayered t g []) k.ordered.queued k)
  search-IsSearched (suc fuel) g (x ∷ queue) m h k l =
      let (a, s, row, column) = h.matching x (Memᴰ.head refl) in
      let (g1, q1, made, grows, tried) =
        visit-Grows t start size a x row column deltas g queue (λ d m. m) h.valid s in
      let closed = visit-Closed t start size a x row column g1 tried in
      let layered = visit-IsLayered g g1 x queue q1 a m h.valid k s grows closed in
      let next = visit-IsSearched t start size g g1 x queue q1 a h s grows closed in
      let (g2, e, done, kept, connected, last) =
        search-IsSearched fuel g1 q1 (suc m) next layered (omega (arith, grows.less)) in
      (
        g2,
        rw (made, search) e,
        done,
        λ id b m. kept id b (grows.kept id b m),
        λ c. connected (grows.connected c),
        last,
      )
