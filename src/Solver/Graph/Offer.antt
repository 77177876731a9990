-- ===== src/Solver/Graph/Offer.antt =====
-- A slide's board offered to the graph.
use taquin_client_project.Base.{
  ℕ, ◌*◌, ◌^◌, ◌<◌, ◌≡◌, ◌+◌, ◌∙◌, ltb, refl, sym, subst, arith, ◌==◌, true, false, Bool-cases,
  Option-cases, inl, inr, none, some, List, [], ◌∷◌, ◌++◌, length, length-append,
  get_elem?-append_right,
}
use mathlib.Core.Option
use mathlib.Core.List.{Memᴰ}
use mathlib.Core.List.Memᴰ
use taquin_client_project.Result.{ok}
use taquin_client_project.Solver.Board.{Taquin}
use taquin_client_project.Solver.Graph.{Node, Triple, Graph, find_id, add_node, add_edge, offer}
use taquin_client_project.Solver.Graph.Slides.{Slide, IsBoard}
use taquin_client_project.Solver.Graph.Sliding.{Slide-IsBoard, slides_back, nodes_agree}
use taquin_client_project.Solver.Graph.Store.{
  get_elem?-append_left, get_elem?-snoc, get_elem?_lt, Memᴰ-concat, unseen-insert,
}
use taquin_client_project.Solver.Graph.Edges.{Links, Connected, Joins, add_edge-Joins, Edge-append}
use taquin_client_project.Solver.Graph.Order.{offer-IsOrdered}
use taquin_client_project.Solver.Graph.Valid.{
  solved, Reach, here, move, Stored, Joined, IsGraph, Grows, growth_refl,
}

-- The graph with one more board.
abbrev added : Graph → Node → Graph
added g b = record {
  ids = (b.taquin_bs, length g.reverse_ids) ∷ g.ids;
  reverse_ids = g.reverse_ids ++ b ∷ [];
  graph = g.graph ++ [] ∷ [];
}

Joined-append :
    (t : Taquin) (xs ys : List Node) (k o : ℕ) → Joined t xs k o → Joined t (xs ++ ys) k o
Joined-append t xs ys k o (a, b, p, q, s) =
    (a, b, get_elem?-append_left xs ys k a p, get_elem?-append_left xs ys o b q, s)

module _ (t : Taquin) (g : Graph) (v : IsGraph t g) (b : Node)
    (fresh : find_id g.ids b.taquin_bs ≡ none) where
  other : (id : ℕ) (a : Node) → Stored g id a → (b.taquin_bs == a.taquin_bs) ≡ false
  other id a s = elim (Bool-cases (b.taquin_bs == a.taquin_bs)) [
    | inr apart ↦ apart
    | inl same ↦
        let eq : b.taquin_bs ≡ a.taquin_bs = ground arith in
        let found : find_id g.ids a.taquin_bs ≡ some id = v.by_id id a s in
        let none_found : find_id g.ids a.taquin_bs ≡ none = rw eq at fresh in absurd cc
  ]

  added-IsGraph : Reach t b → IsGraph t (added g b)
  added-IsGraph r = record {
    by_id = by_id;
    by_board = by_board;
    reached = λ id a s. elim (get_elem?-snoc g.reverse_ids b id a s) [
      | inl old ↦ v.reached id a old
      | inr (_, new) ↦ subst (Reach t) new r
    ];
    lists =
        omega
          (arith, v.lists, length-append g.graph ([] ∷ []), length-append g.reverse_ids (b ∷ []));
    edges = edges;
  }
    where
      by_id :
          (id : ℕ) (a : Node)
          → Stored (added g b) id a
          → find_id (added g b).ids a.taquin_bs ≡ some id
      by_id id a s = elim (get_elem?-snoc g.reverse_ids b id a s) [
        | inl old ↦ rw (other id a old) (v.by_id id a old)
        | inr (last, new) ↦
            let same : (b.taquin_bs == a.taquin_bs) ≡ true = rw new (ground arith) in
            rw (same, last) refl
      ]

      by_board :
          (x id : ℕ)
          → find_id (added g b).ids x ≡ some id
          → (a : Node) × Stored (added g b) id a × (a.taquin_bs ≡ x)
      by_board x id e = elim (Bool-cases (b.taquin_bs == x)) [
        | inl same ↦
            let last : length g.reverse_ids ≡ id = Option.some-injective _ _ (rw same at e) in
            (b, rw last at (get_elem?-append_right g.reverse_ids b []), ground arith)
        | inr apart ↦
            let (a, s, q) = v.by_board x id (rw apart at e) in
            (a, get_elem?-append_left g.reverse_ids (b ∷ []) id a s, q)
      ]

      edges : Links (Joined t (added g b).reverse_ids) (added g b).graph
      edges k o (e, s, m) = elim (get_elem?-snoc g.graph [] k e s) [
        | inl old ↦ Joined-append t g.reverse_ids (b ∷ []) k o (v.edges k o (e, old, m))
        | inr (_, new) ↦ absurd (Memᴰ.not-nil (subst (Memᴰ o) (sym new) m))
      ]

  add_node-added : add_node b.taquin_bs b.i_puzzle b.j_puzzle g ≡ (true, added g b)
  unfolding add_node
  add_node-added = ground arith

  -- The triple that is queued for the new board.
  abbrev last : Triple
  last = record { first = length g.reverse_ids; second = b.i_puzzle; third = b.j_puzzle }

  offer-added :
      (queue : List Triple) (id : ℕ) (es : List (List ℕ))
      → add_edge (length g.reverse_ids) id (added g b).graph ≡ ok es
      → offer id b.taquin_bs b.i_puzzle b.j_puzzle (g, queue)
        ≡ ok (record (added g b) { graph = es }, queue ++ last ∷ [])
  unfolding offer add_node
  offer-added queue id es e = ground arith

  module _ (id : ℕ) (a : Node) (stored : Stored g id a) (slide : Slide t a b) (back : Slide t b a)
      (es : List (List ℕ)) (joins : Joins (added g b).graph (length g.reverse_ids) id es) where
    known : id < length g.graph
    known = omega (arith, v.lists, get_elem?_lt g.reverse_ids id a stored)

    edges-Joined : IsGraph t (added g b) → Links (Joined t (added g b).reverse_ids) es
    edges-Joined w k o edge =
        let old : Stored (added g b) id a =
          get_elem?-append_left g.reverse_ids (b ∷ []) id a stored in
        let new : Stored (added g b) (length g.reverse_ids) b =
          get_elem?-append_right g.reverse_ids b [] in
        elim (joins.only k o edge) [
          | inl before ↦ w.edges k o before
          | inr (inl (e, f)) ↦ rw (e, f) (b, a, new, old, back)
          | inr (inr (e, f)) ↦ rw (e, f) (a, b, old, new, slide)
        ]

    added-Connected : Connected g.graph → Connected es
    added-Connected c k h l = elim (Bool-cases (ltb k (length g.graph))) [
      | inl before ↦
          let (j, less, edge) = c k h (ground arith) in
          (j, less, joins.old j k (Edge-append g.graph ([] ∷ []) j k edge))
      | inr last_one ↦
          let size : length es ≡ length g.graph + 1 =
            joins.same ∙ length-append g.graph ([] ∷ []) in
          let last : k ≡ length g.reverse_ids = ground (arith, v.lists) in
          (id, omega (arith, last, get_elem?_lt g.reverse_ids id a stored), rw last joins.back)
    ]

    Grows-added :
        (queue : List Triple)
        → b.taquin_bs < 2 ^ t.size_bs
        → IsGraph t (added g b)
        → Grows t id g queue (record (added g b) { graph = es }) (queue ++ last ∷ [])
    Grows-added queue bound w = record {
      valid = record {
        by_id = w.by_id;
        by_board = w.by_board;
        reached = w.reached;
        lists = omega (arith, w.lists, joins.same);
        edges = edges-Joined w;
      };
      kept = λ id a s. get_elem?-append_left g.reverse_ids (b ∷ []) id a s;
      queued = λ id a s. elim (get_elem?-snoc g.reverse_ids b id a s) [
        | inl old ↦ inl old
        | inr (last, new) ↦ inr (_, (Memᴰ-concat _ _ queue).1 (inr refl), sym last)
      ];
      waiting = λ id (x, m, e). (x, (Memᴰ-concat x _ queue).1 (inl m), e);
      matching = λ h x m. elim ((Memᴰ-concat x _ queue).0 m) [
        | inl old ↦
            let (a, s, i, j) = h x old in
            (a, get_elem?-append_left g.reverse_ids (b ∷ []) x.first a s, i, j)
        | inr new ↦ rw new (b, get_elem?-append_right g.reverse_ids b [], refl, refl)
      ];
      connected = added-Connected;
      heads = λ k p (tail, e).
          joins.heads k p (tail, get_elem?-append_left g.graph ([] ∷ []) k (p ∷ tail) e);
      ordered = λ o.
          offer-IsOrdered g.graph es id known
            (subst (λ n. Joins (g.graph ++ [] ∷ []) n id es) (sym v.lists) joins) queue o last
            (sym v.lists);
      less = omega (
        arith,
        unseen-insert (2 ^ t.size_bs) b.taquin_bs (length g.reverse_ids) g.ids bound fresh,
        length-append queue (last ∷ []),
      );
    }

module _ (t : Taquin) (start : IsBoard t (solved t)) (size : t.size_bs ≡ t.n * t.n * t.nbits) where
  pub Reach-IsBoard : (a : Node) → Reach t a → IsBoard t a
  Reach-IsBoard _ here = start
  Reach-IsBoard _ (move a b r s) = Slide-IsBoard t size a b s (Reach-IsBoard a r)

  pub offer-Grows :
      (g : Graph) (queue : List Triple) (id : ℕ) (a b : Node)
      → IsGraph t g
      → Stored g id a
      → Slide t a b
      → (g' : Graph) × (queue' : List Triple) × (offer id b.taquin_bs b.i_puzzle b.j_puzzle
            (g, queue)
          ≡ ok (g', queue'))
        × Grows t id g queue g' queue'
        × (id' : ℕ) × Stored g' id' b
  unfolding offer
  offer-Grows g queue id a b v s slide = elim (Option-cases (find_id g.ids b.taquin_bs)) [
    | inl fresh ↦
        let w : IsGraph t (added g b) =
          added-IsGraph t g v b fresh (move a b (v.reached id a s) slide) in
        let back : Slide t b a = slides_back t a b (Reach-IsBoard a (v.reached id a s)) slide in
        let within : length g.reverse_ids < length (added g b).graph =
          omega (arith, v.lists, length-append g.graph ([] ∷ [])) in
        let (es, made, joins) =
          add_edge-Joins (added g b).graph (length g.reverse_ids) id within
            (omega (arith, within, get_elem?_lt g.reverse_ids id a s)) in
        (
          record (added g b) { graph = es },
          queue ++ last t g v b fresh ∷ [],
          offer-added t g v b fresh queue id es made,
          Grows-added t g v b fresh id a s slide back es joins queue slide.bounded w,
          length g.reverse_ids,
          get_elem?-append_right g.reverse_ids b [],
        )
    | inr (id', e) ↦
        let (a', s', same) = v.by_board b.taquin_bs id' e in
        let eq : a' ≡ b =
          nodes_agree t a' b (Reach-IsBoard a' (v.reached id' a' s'))
            (Slide-IsBoard t size a b slide (Reach-IsBoard a (v.reached id a s))) same in
        (g, queue, ground arith, growth_refl t id g queue v, id', subst (Stored g id') eq s')
  ]
