-- ===== src/Solver/Graph/Order.antt =====
-- The order that the search keeps while boards are offered.
use taquin_client_project.Base.{
  ℕ, suc, ◌≡◌, ◌<◌, ◌≤◌, ◌⊎◌, ◌++◌, sym, subst, arith, ltb, Bool-cases, List, [], ◌∷◌, length,
  length-append, get_elem?-append_right, inl, inr,
}
use mathlib.Core.List.{Memᴰ}
use mathlib.Core.List.Memᴰ
use taquin_client_project.Solver.Graph.{Triple}
use taquin_client_project.Solver.Graph.Store.{get_elem?-append_left, get_elem?-snoc}
use taquin_client_project.Solver.Graph.Edges.{
  Edge, Parent, Joins, IsOrdered, Consecutive-concat, parents_agree,
}

-- A last id without edges has none.
Edge-snoc : (es : List (List ℕ)) (k o : ℕ) → Edge (es ++ [] ∷ []) k o → Edge es k o
Edge-snoc es k o (e, s, m) = elim (get_elem?-snoc es [] k e s) [
  | inl old ↦ (e, old, m)
  | inr (_, new) ↦ absurd (Memᴰ.not-nil (subst (Memᴰ o) (sym new) m))
]

module _ (es es' : List (List ℕ)) (id : ℕ) (within : id < length es)
    (joins : Joins (es ++ [] ∷ []) (length es) id es') (queue : List Triple)
    (v : IsOrdered es queue (suc id)) where
  size : length es' ≡ suc (length es)
  size = omega (arith, joins.same, length-append es ([] ∷ []))

  new_parent : Parent es' (length es) id
  new_parent = joins.first (get_elem?-append_right es [] [])

  kept_parent : (k p : ℕ) → Parent es k p → Parent es' k p
  kept_parent k p (tail, e) =
      joins.heads k p (tail, get_elem?-append_left es ([] ∷ []) k (p ∷ tail) e)

  old_parent : (k p : ℕ) → 0 < k → k < length es → Parent es' k p → Parent es k p × (p ≤ id)
  old_parent k p h l parent =
      let (q, before, _, polled) = v.parents k h l in
      let same : q ≡ p = parents_agree es' k q p (kept_parent k q before) parent in
      (subst (Parent es k) same before, omega (arith, same, polled))

  parent_of : (k : ℕ) → 0 < k → k < length es' → (p : ℕ) × Parent es' k p × (p < k) × (p < suc id)
  parent_of k h l = elim (Bool-cases (ltb k (length es))) [
    | inl before ↦
        let (p, parent, less, polled) = v.parents k h (ground arith) in
        (p, kept_parent k p parent, less, polled)
    | inr after ↦
        let last : k ≡ length es = ground (arith, size) in
        (id, rw last new_parent, omega (arith, last), omega arith)
  ]

  rises :
      (k k' p p' : ℕ)
      → 0 < k
      → k < k'
      → k' < length es'
      → Parent es' k p
      → Parent es' k' p'
      → p ≤ p'
  rises k k' p p' h less l parent parent' =
      let (old, most) = old_parent k p h (omega (arith, size)) parent in
      elim (Bool-cases (ltb k' (length es))) [
        | inl before ↦
            let (old', _) = old_parent k' p' (omega arith) (ground arith) parent' in
            v.rising k k' p p' h less (ground arith) old old'
        | inr after ↦
            let last : k' ≡ length es = ground (arith, size) in
            let same : p' ≡ id = parents_agree es' k' p' id parent' (rw last new_parent) in
            omega (arith, same, most)
      ]

  joined_tree : (k o : ℕ) → Edge es' k o → ((0 < o) × Parent es' o k) ⊎ ((0 < k) × Parent es' k o)
  joined_tree k o edge = elim (joins.only k o edge) [
    | inl before ↦ elim (v.tree k o (Edge-snoc es k o before)) [
      | inl (h, parent) ↦ inl (h, kept_parent o k parent)
      | inr (h, parent) ↦ inr (h, kept_parent k o parent)
    ]
    | inr (inl (e, f)) ↦ inr (omega (arith, e, within), rw (e, f) new_parent)
    | inr (inr (e, f)) ↦ inl (omega (arith, f, within), rw (e, f) new_parent)
  ]

  pub offer-IsOrdered :
      (x : Triple) → x.first ≡ length es → IsOrdered es' (queue ++ x ∷ []) (suc id)
  offer-IsOrdered x e = record {
    queued = rw size (Consecutive-concat (suc id) (length es) queue x v.queued e);
    parents = parent_of;
    rising = rises;
    tree = joined_tree;
  }
