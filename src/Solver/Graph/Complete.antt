-- ===== src/Solver/Graph/Complete.antt =====
-- `creatGraph`, and `Graph(n)` up to its call of `dijkstra`.
use native.Mathlib.Nat.{suc-mul}
use taquin_client_project.Solver.Bits.{position}
use taquin_client_project.Solver.Board.Cells.{cell}
use taquin_client_project.Base.{
  ltb, ℕ, zero, suc, ◌+◌, ◌-◌, ◌*◌, ◌^◌, ◌≤◌, ◌<◌, ◌≡◌, ◌≢◌, length, refl, ap, sym, subst, ◌∙◌,
  arith, ◌==◌, true, false, Bool-cases, inl, inr, some, [], ◌∷◌,
}
use mathlib.Core.Option
use mathlib.Core.List.{Memᴰ}
use mathlib.Core.List.Memᴰ
use taquin_client_project.Result.{ok}
use taquin_client_project.Solver.Board.{Taquin}
use taquin_client_project.Solver.Graph.{Node, Triple, Graph, find_id, search, creat_graph, slide}
use taquin_client_project.Solver.Graph.Slides.{IsBoard}
use taquin_client_project.Solver.Graph.Store.{unseen-insert, unseen-nil}
use taquin_client_project.Solver.Graph.Edges.{Edge, Connected}
use taquin_client_project.Solver.Graph.Valid.{solved, Reach, here, move, Stored, IsGraph, work}
use taquin_client_project.Solver.Graph.Search.{IsSearched}
use taquin_client_project.Solver.Graph.Layers.{IsLayered, search-IsSearched}
use taquin_client_project.Solver.Board.{new_taquin}
use taquin_client_project.Solver.Board.Solved.{IsSolved, new_taquin-IsSolved}

-- What the search leaves: exactly the boards that slides lead to, each under one id, the solved
-- board first, in breadth-first order.
pub record IsExplored (t : Taquin) (g : Graph) : Type 0 where
  pub valid : IsGraph t g
  pub first : Stored g 0 (solved t)
  pub connected : Connected g.graph
  pub layered : IsLayered t g [] (length g.graph)
  pub all :
      (a : Node) → Reach t a → (id : ℕ) × Stored g id a × (find_id g.ids a.taquin_bs ≡ some id)

module _ (t : Taquin) (start : IsBoard t (solved t)) (size : t.size_bs ≡ t.n * t.n * t.nbits) where
  -- The graph and the triple that the loop starts from.
  abbrev first_graph : Graph
  first_graph = record { ids = (t.taquin_bs, 0) ∷ []; reverse_ids = solved t ∷ []; graph = [] ∷ [] }

  abbrev first_triple : Triple
  first_triple = record { first = 0; second = t.i_puzzle; third = t.j_puzzle }

  creat_graph-search :
      (fuel : ℕ) → creat_graph fuel t ≡ search fuel t first_graph (first_triple ∷ [])
  unfolding creat_graph
  creat_graph-search fuel =
      let itself : (t.taquin_bs == t.taquin_bs) ≡ true = ground arith in
      rw (itself, creat_graph) refl

  none-Edge : (k o : ℕ) → Edge first_graph.graph k o → k ≢ k
  none-Edge zero o (e, s, m) =
      absurd (Memᴰ.not-nil (subst (Memᴰ o) (sym (Option.some-injective _ _ s)) m))
  none-Edge (suc k) o (e, s, m) = cc

  first-IsSearched : IsSearched t start size first_graph (first_triple ∷ [])
  first-IsSearched = record {
    valid = record {
      by_id = by_id;
      by_board = by_board;
      reached = λ id a s. subst (Reach t) (only_one id a s).1 here;
      lists = refl;
      edges = λ k o edge. absurd (none-Edge k o edge refl);
    };
    matching = λ x m. let e = Memᴰ.eq_of_singleton m in rw e (solved t, refl, refl, refl);
    closed = λ id a s. inl (first_triple, Memᴰ.head refl, sym (only_one id a s).0);
  }
    where
      only_one : (id : ℕ) (a : Node) → Stored first_graph id a → (id ≡ 0) × (solved t ≡ a)
      only_one zero a s = (refl, Option.some-injective _ _ s)
      only_one (suc id) a s = cc

      by_id :
          (id : ℕ) (a : Node)
          → Stored first_graph id a
          → find_id first_graph.ids a.taquin_bs ≡ some id
      by_id id a s =
          let (e, q) = only_one id a s in
          let itself : (t.taquin_bs == a.taquin_bs) ≡ true = rw (sym q) (ground arith) in
          rw (itself, e) refl

      by_board :
          (b id : ℕ)
          → find_id first_graph.ids b ≡ some id
          → (a : Node) × Stored first_graph id a × (a.taquin_bs ≡ b)
      by_board b id e = elim (Bool-cases (t.taquin_bs == b)) [
        | inl same ↦
            let zeroth : 0 ≡ id = Option.some-injective _ _ (rw same at e) in
            (solved t, rw (sym zeroth) refl, ground arith)
        | inr apart ↦ absurd (let none_found = rw apart at e in cc)
      ]

  first-IsLayered : IsLayered t first_graph (first_triple ∷ []) 0
  first-IsLayered = record {
    ordered = record {
      queued = (refl, refl);
      parents = λ id h l. absurd (omega arith);
      rising = λ id id' p p' h l m parent parent'. absurd (omega arith);
      tree = λ k o edge. absurd (none-Edge k o edge refl);
    };
    near = λ ia a l s b slide. absurd (omega arith);
  }

  all_stored :
      (g : Graph)
      → IsSearched t start size g []
      → Stored g 0 (solved t)
      → (a : Node) → Reach t a
      → (id : ℕ) × Stored g id a
  all_stored g h s _ here = (0, s)
  all_stored g h s _ (move a b r slide) =
      let (id, m) = all_stored g h s a r in
      elim (h.closed id a m) [
        | inl (x, waits, _) ↦ absurd (Memᴰ.not-nil waits)
        | inr closed ↦ closed b slide
      ]

  pub creat_graph-IsExplored :
      (fuel : ℕ)
      → 2 ^ t.size_bs < fuel
      → (g : Graph) × (creat_graph fuel t ≡ some (ok g)) × IsExplored t g
  creat_graph-IsExplored fuel h =
      let bound : work t first_graph (first_triple ∷ []) < fuel = omega (
        arith,
        unseen-insert (2 ^ t.size_bs) t.taquin_bs 0 [] start.bounded refl,
        unseen-nil (2 ^ t.size_bs),
      ) in
      let (g, e, done, kept, connected, layered) =
        search-IsSearched t start size fuel first_graph (first_triple ∷ []) 0 first-IsSearched
          first-IsLayered bound in
      let first = kept 0 (solved t) refl in
      (
        g,
        creat_graph-search fuel ∙ e,
        record {
          valid = done.valid;
          first = first;
          connected = connected (λ id h l. absurd (omega arith));
          layered = layered;
          all =
              λ a r. let (id, s) = all_stored g done first a r in (id, s, done.valid.by_id id a s);
        },
      )

not_before : (p c : ℕ) → ltb p c ≡ false → c ≤ p
not_before p c e = ground arith

-- The last place of the solved board.
corner :
    (n : ℕ) (t : Taquin) → 1 ≤ n → IsSolved n t → position t.n t.i_puzzle t.j_puzzle ≡ n * n - 1
corner n t h v =
    let m : ℕ = n - 1 in
    let whole : suc m * n ≡ n * n = ap (λ (x : ℕ). x * n) (omega arith) in
    rw (v.row, v.column, v.side) (omega (arith, whole, suc-mul m n))

pub IsSolved-IsBoard : (n : ℕ) (t : Taquin) → 1 ≤ n → IsSolved n t → IsBoard t (solved t)
IsSolved-IsBoard n t h v = record {
  row = omega (arith, v.side, v.row);
  column = omega (arith, v.side, v.column);
  bounded = v.bounded;
  blank = rw (corner n t h v, v.side) v.blank;
  only = λ p l e. elim (Bool-cases (ltb (suc p) (n * n))) [
    | inl before ↦
        let zero_there : cell (n * n) t.nbits t.taquin_bs p ≡ 0 = rw v.side at e in
        absurd (omega (arith, zero_there, v.numbered p (ground arith)))
    | inr last ↦
        let within : p < n * n = rw v.side at l in
        omega (arith, within, corner n t h v, not_before (suc p) (n * n) last)
  ];
}

pub creat_graph-IsExplored_from_n :
    (n : ℕ)
    → 1 ≤ n
    → n ≤ 256
    → (t : Taquin) × (new_taquin 17 n ≡ some (ok t))
      × IsSolved n t
      × (g : Graph) × (creat_graph (2 ^ t.size_bs + 1) t ≡ some (ok g))
      × IsExplored t g
creat_graph-IsExplored_from_n n h k =
    let (t, made, v) = new_taquin-IsSolved n h k in
    let size : t.size_bs ≡ t.n * t.n * t.nbits = rw v.side v.size in
    let (g, e, w) =
      creat_graph-IsExplored t (IsSolved-IsBoard n t h v) size (2 ^ t.size_bs + 1) (omega arith) in
    (t, made, v, g, e, w)
