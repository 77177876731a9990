-- ===== src/Solver/Graph/Edges.antt =====
-- What `addEdge` leaves of the edges.
use taquin_client_project.Base.{
  ℕ, zero, suc, ◌≡◌, ◌<◌, ◌≤◌, ◌∙◌, ◌⊎◌, ◌++◌, refl, sym, subst, ap, arith, some, List, [], ◌∷◌,
  length, get_elem?, inl, inr,
}
use mathlib.Core.Option
use mathlib.Core.List.{Memᴰ}
use taquin_client_project.Result.{ok}
use taquin_client_project.Solver.Graph.{Triple, add_to, add_edge}
use taquin_client_project.Solver.Graph.Store.{Memᴰ-concat, get_elem?-append_left}

-- o is in the list of k.
abbrev pub Edge : List (List ℕ) → ℕ → ℕ → Type 0
Edge es k o = (e : List ℕ) × (get_elem? es k ≡ some e) × Memᴰ o e

-- Whatever the edges join is related by P.
abbrev pub Links : (ℕ → ℕ → Type 0) → List (List ℕ) → Type 0
Links P es = (k o : ℕ) → Edge es k o → P k o

-- Every id but 0 has an edge from a smaller one.
abbrev pub Connected : List (List ℕ) → Type 0
Connected es = (id : ℕ) → 0 < id → id < length es → (k : ℕ) × (k < id) × Edge es k id

-- p is the first in the list of id.
abbrev pub Parent : List (List ℕ) → ℕ → ℕ → Type 0
Parent es id p = (tail : List ℕ) × (get_elem? es id ≡ some (p ∷ tail))

-- The edges of es and one more.
record Adds (es : List (List ℕ)) (id other : ℕ) (es' : List (List ℕ)) : Type 0 where
  same : length es' ≡ length es
  old : (k o : ℕ) → Edge es k o → Edge es' k o
  new : Edge es' id other
  only : (k o : ℕ) → Edge es' k o → Edge es k o ⊎ ((k ≡ id) × (o ≡ other))
  heads : (k p : ℕ) → Parent es k p → Parent es' k p
  first : get_elem? es id ≡ some [] → Parent es' id other

Adds-head :
    (e : List ℕ) (es : List (List ℕ)) (other : ℕ)
    → Adds (e ∷ es) zero other ((e ++ other ∷ []) ∷ es)
Adds-head e es other = record {
  same = refl;
  old = old;
  new = (_, refl, (Memᴰ-concat other other e).1 (inr refl));
  only = only;
  heads = heads;
  first = λ q. ([], ap (λ l. some (l ++ other ∷ [])) (Option.some-injective e [] q));
}
  where
    old : (k o : ℕ) → Edge (e ∷ es) k o → Edge ((e ++ other ∷ []) ∷ es) k o
    old zero o (e', s, m) = (
      _,
      refl,
      (Memᴰ-concat o other e).1 (inl (subst (Memᴰ o) (sym (Option.some-injective e e' s)) m)),
    )
    old (suc k) o edge = edge

    only :
        (k o : ℕ)
        → Edge ((e ++ other ∷ []) ∷ es) k o
        → Edge (e ∷ es) k o ⊎ ((k ≡ zero) × (o ≡ other))
    only zero o (e', s, m) =
        elim ((Memᴰ-concat o other e).0
          (subst (Memᴰ o) (sym (Option.some-injective (e ++ other ∷ []) e' s)) m)) [
            | inl before ↦ inl (e, refl, before)
            | inr last ↦ inr (refl, last)
          ]
    only (suc k) o edge = inl edge

    heads : (k p : ℕ) → Parent (e ∷ es) k p → Parent ((e ++ other ∷ []) ∷ es) k p
    heads zero p (tail, q) = (
      tail ++ other ∷ [],
      ap (λ l. some (l ++ other ∷ [])) (Option.some-injective e (p ∷ tail) q),
    )
    heads (suc k) p parent = parent

Adds-tail :
    (e : List ℕ) (es es' : List (List ℕ)) (id other : ℕ)
    → Adds es id other es'
    → Adds (e ∷ es) (suc id) other (e ∷ es')
Adds-tail e es es' id other v = record {
  same = ap suc v.same;
  old = old;
  new = v.new;
  only = only;
  heads = heads;
  first = v.first;
}
  where
    old : (k o : ℕ) → Edge (e ∷ es) k o → Edge (e ∷ es') k o
    old zero o edge = edge
    old (suc k) o edge = v.old k o edge

    only : (k o : ℕ) → Edge (e ∷ es') k o → Edge (e ∷ es) k o ⊎ ((k ≡ suc id) × (o ≡ other))
    only zero o edge = inl edge
    only (suc k) o edge = elim (v.only k o edge) [
      | inl before ↦ inl before
      | inr (here, last) ↦ inr (ap suc here, last)
    ]

    heads : (k p : ℕ) → Parent (e ∷ es) k p → Parent (e ∷ es') k p
    heads zero p parent = parent
    heads (suc k) p parent = v.heads k p parent

add_to-Adds :
    (es : List (List ℕ)) (id other : ℕ)
    → id < length es
    → (es' : List (List ℕ)) × (add_to es id other ≡ ok es') × Adds es id other es'
unfolding add_to
add_to-Adds [] id other h = absurd (omega arith)
add_to-Adds (e ∷ es) zero other h = (_, refl, Adds-head e es other)
add_to-Adds (e ∷ es) (suc id) other h =
    let (es', made, v) = add_to-Adds es id other (omega arith) in
    (e ∷ es', rw made refl, Adds-tail e es es' id other v)

-- Both directions of an edge are added, and nothing else.
pub record Joins (es : List (List ℕ)) (id1 id2 : ℕ) (es' : List (List ℕ)) : Type 0 where
  pub same : length es' ≡ length es
  pub old : (k o : ℕ) → Edge es k o → Edge es' k o
  pub new : Edge es' id1 id2
  pub back : Edge es' id2 id1
  pub only :
      (k o : ℕ) → Edge es' k o → Edge es k o ⊎ ((k ≡ id1) × (o ≡ id2)) ⊎ ((k ≡ id2) × (o ≡ id1))
  pub heads : (k p : ℕ) → Parent es k p → Parent es' k p
  pub first : get_elem? es id1 ≡ some [] → Parent es' id1 id2

pub add_edge-Joins :
    (es : List (List ℕ)) (id1 id2 : ℕ)
    → id1 < length es
    → id2 < length es
    → (es' : List (List ℕ)) × (add_edge id1 id2 es ≡ ok es') × Joins es id1 id2 es'
unfolding add_edge
add_edge-Joins es id1 id2 h k =
    let (es1, made, v) = add_to-Adds es id1 id2 h in
    let (es2, made', w) = add_to-Adds es1 id2 id1 (omega (arith, v.same)) in
    (
      es2,
      rw (made, made') refl,
      record {
        same = omega (arith, v.same, w.same);
        old = λ k o edge. w.old k o (v.old k o edge);
        new = w.old id1 id2 v.new;
        back = w.new;
        heads = λ k p parent. w.heads k p (v.heads k p parent);
        first = λ q. w.heads id1 id2 (v.first q);
        only = λ k o edge. elim (w.only k o edge) [
          | inr last ↦ inr (inr last)
          | inl before ↦ elim (v.only k o before) [
            | inl first ↦ inl first
            | inr second ↦ inr (inl second)
          ]
        ];
      },
    )

pub Edge-append : (es fs : List (List ℕ)) (k o : ℕ) → Edge es k o → Edge (es ++ fs) k o
Edge-append es fs k o (e, s, m) = (e, get_elem?-append_left es fs k e s, m)

pub parents_agree : (es : List (List ℕ)) (id p q : ℕ) → Parent es id p → Parent es id q → p ≡ q
parents_agree es id p q (tail, e) (tail', f) = cc

-- The ids from m up to n, in order.
abbrev pub Consecutive : ℕ → List Triple → ℕ → Type 0
Consecutive m [] n = m ≡ n
Consecutive m (x ∷ queue) n = (x.first ≡ m) × Consecutive (suc m) queue n

pub Consecutive-concat :
    (m n : ℕ) (queue : List Triple) (x : Triple)
    → Consecutive m queue n
    → x.first ≡ n
    → Consecutive m (queue ++ x ∷ []) (suc n)
Consecutive-concat m n [] x e f = (f ∙ sym e, ap suc e)
Consecutive-concat m n (y ∷ queue) x (e, c) f = (e, Consecutive-concat (suc m) n queue x c f)

-- The ids below m were polled in order, and each id behind 0 has the smaller id that it was found from for
-- its parent; the parents are in the order of the ids, and every edge joins an id and its parent.
pub record IsOrdered (es : List (List ℕ)) (queue : List Triple) (m : ℕ) : Type 0 where
  pub queued : Consecutive m queue (length es)
  pub parents : (id : ℕ) → 0 < id → id < length es → (p : ℕ) × Parent es id p × (p < id) × (p < m)
  pub rising :
      (id id' p p' : ℕ)
      → 0 < id
      → id < id'
      → id' < length es
      → Parent es id p
      → Parent es id' p'
      → p ≤ p'
  pub tree : (k o : ℕ) → Edge es k o → ((0 < o) × Parent es o k) ⊎ ((0 < k) × Parent es k o)
