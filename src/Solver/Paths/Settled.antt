-- ===== src/Solver/Paths/Settled.antt =====
-- What `dijkstra` keeps to while it settles ids, each at its distance from id 0.
use taquin_client_project.Base.{
  ℕ, suc, ◌≤◌, ◌<◌, ◌≡◌, ◌⊎◌, ◌∙◌, ap, sym, arith, false, inl, inr, some, List, length, get_elem?,
}
use mathlib.Core.List.{Memᴰ}
use taquin_client_project.Solver.Graph.{Triple}
use taquin_client_project.Solver.Graph.Edges.{Edge}
use taquin_client_project.Solver.Paths.{Paths}

abbrev pub Settled : Paths → ℕ → Type 0
Settled s id = get_elem? s.marks id ≡ some false

-- How an id comes to a distance d: it is the first, or d is one more than that of its parent.
abbrev pub From : List (List ℕ) → Paths → (ℕ → ℕ) → ℕ → ℕ → ℕ → Type 0
From es s dist id p d =
    ((id ≡ 0) × (p ≡ 0) × (d ≡ 0)) ⊎ (Settled s p × Edge es p id × (d ≡ suc (dist p)))

abbrev pub Waits : List Triple → ℕ → ℕ → Type 0
Waits pq id cost = (x : Triple) × Memᴰ x pq × (x.second ≡ id) × (x.first ≡ cost)

-- The distances of the settled ids, with c the last cost that was polled.
pub record IsSettled (es : List (List ℕ)) (dist : ℕ → ℕ) (c : ℕ) (s : Paths) (pq : List Triple)
    : Type 0 where
  pub parents : length s.parents ≡ length es
  pub marks : length s.marks ≡ length es
  pub near : (id : ℕ) → Settled s id → dist id ≤ c
  pub tree :
      (id : ℕ)
      → Settled s id
      → (p : ℕ) × (get_elem? s.parents id ≡ some p) × From es s dist id p (dist id)
  pub waiting :
      (x : Triple)
      → Memᴰ x pq
      → (c ≤ x.first) × (x.second < length es) × From es s dist x.second x.third x.first
  pub relaxed :
      (k o : ℕ)
      → Settled s k
      → Edge es k o
      → (Settled s o × (dist o ≤ suc (dist k))) ⊎ Waits pq o (suc (dist k))
  pub source : (Settled s 0 × (dist 0 ≡ 0)) ⊎ Waits pq 0 0
  pub far : (id : ℕ) → Settled s id → dist id ≤ s.farthest_distance
  pub farthest :
      (Settled s s.farthest_node × (dist s.farthest_node ≡ s.farthest_distance))
      ⊎ ((s.farthest_node ≡ 0) × (s.farthest_distance ≡ 0))

-- Whatever is polled is known to be least.
abbrev pub Polls : Triple → List Triple → List Triple → Type 0
Polls x rest pq =
    ((z : Triple) → Memᴰ z pq → (z ≡ x) ⊎ Memᴰ z rest)
    × ((z : Triple) → Memᴰ z rest → Memᴰ z pq)
    × ((z : Triple) → Memᴰ z pq → x.first ≤ z.first)
    × Memᴰ x pq

module _ (es : List (List ℕ)) (dist : ℕ → ℕ) (c : ℕ) (s : Paths) (pq rest : List Triple)
    (x : Triple) (v : IsSettled es dist c s pq) (polls : Polls x rest pq) where
  pub polled_or_later :
      (id cost : ℕ) → Waits pq id cost → ((x.second ≡ id) × (x.first ≡ cost)) ⊎ Waits rest id cost
  polled_or_later id cost (z, m, e, f) = elim (polls.0 z m) [
    | inl same ↦
        inl (
          ap (λ (t : Triple). t.second) (sym same) ∙ e,
          ap (λ (t : Triple). t.first) (sym same) ∙ f,
        )
    | inr later ↦ inr (z, later, e, f)
  ]

  -- An id that is settled already.
  pub polled_again : Settled s x.second → IsSettled es dist c s rest
  polled_again done = record {
    parents = v.parents;
    marks = v.marks;
    near = v.near;
    tree = v.tree;
    waiting = λ z m. v.waiting z (polls.1 z m);
    relaxed = λ k o sk edge. elim (v.relaxed k o sk edge) [
      | inl h ↦ inl h
      | inr w ↦ elim (polled_or_later o (suc (dist k)) w) [
        | inr later ↦ inr later
        | inl (e, f) ↦
            let so : Settled s o = rw e at done in
            inl (so, omega (arith, v.near o so, (v.waiting x polls.3).0))
      ]
    ];
    source = elim v.source [
      | inl h ↦ inl h
      | inr w ↦ elim (polled_or_later 0 0 w) [
        | inr later ↦ inr later
        | inl (e, f) ↦
            let so : Settled s 0 = rw e at done in
            inl (so, omega (arith, v.near 0 so, (v.waiting x polls.3).0))
      ]
    ];
    far = v.far;
    farthest = v.farthest;
  }
