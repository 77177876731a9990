-- ===== src/Solver/Paths/Polled.antt =====
-- What `dijkstra` keeps to when it polls an id that is still marked.
use taquin_client_project.Base.{
  ℕ, suc, ◌+◌, ◌≤◌, ◌<◌, ◌≡◌, ◌≢◌, ◌⊎◌, ◌∙◌, refl, ap, sym, subst, arith, ◌==◌, ltb, if◌then◌else◌,
  Bool, true, false, Bool-cases, inl, inr, some, List, ◌++◌, length, get_elem?,
}
use mathlib.Core.Option
use mathlib.Core.List.{Memᴰ}
use mathlib.Core.List.Memᴰ
use taquin_client_project.Solver.Graph.{Triple}
use taquin_client_project.Solver.Graph.Edges.{Edge}
use taquin_client_project.Solver.Paths.{Paths, offers}
use taquin_client_project.Solver.Paths.Lists.{IsPut, offers-Offered, Offered-offers}
use taquin_client_project.Solver.Paths.Settled.{
  Settled, From, Waits, IsSettled, Polls, polled_or_later,
}

-- The state behind a poll of a marked id.
abbrev pub settled_state : Paths → Triple → List ℕ → List Bool → Paths
settled_state s x parents marks = record {
  parents = parents;
  marks = marks;
  farthest_node = if ltb s.farthest_distance x.first then x.second else s.farthest_node;
  farthest_distance = if ltb s.farthest_distance x.first then x.first else s.farthest_distance;
}

-- The distances with one more.
abbrev pub with_cost : (ℕ → ℕ) → ℕ → ℕ → ℕ → ℕ
with_cost dist id cost i = if i == id then cost else dist i

module _ (es : List (List ℕ)) (dist : ℕ → ℕ) (c : ℕ) (s : Paths) (pq rest : List Triple)
    (x : Triple) (v : IsSettled es dist c s pq) (polls : Polls x rest pq)
    (fresh : get_elem? s.marks x.second ≡ some true) (parents : List ℕ)
    (ps : IsPut s.parents x.second x.third parents) (marks : List Bool)
    (ms : IsPut s.marks x.second false marks) (e : List ℕ) (here : get_elem? es x.second ≡ some e)
    (inside : (k o : ℕ) → Edge es k o → o < length es) where
  abbrev now : Paths
  now = settled_state s x parents marks

  abbrev dist' : ℕ → ℕ
  dist' = with_cost dist x.second x.first

  cost_here : dist' x.second ≡ x.first
  cost_here = ground arith

  cost_other : (i : ℕ) → i ≢ x.second → dist' i ≡ dist i
  cost_other i h = ground (arith, h)

  apart : (i : ℕ) → Settled s i → i ≢ x.second
  apart i h q = let both : some true ≡ some false = sym fresh ∙ (rw q at h) in cc

  stays : (i : ℕ) → Settled s i → Settled now i
  stays i h = ms.other i (apart i h) ∙ h

  was : (i : ℕ) → Settled now i → (i ≡ x.second) ⊎ Settled s i
  was i h = elim (Bool-cases (i == x.second)) [
    | inl same ↦ inl (ground arith)
    | inr other ↦ inr (sym (ms.other i (ground arith)) ∙ h)
  ]

  From-stays : (id p d : ℕ) → From es s dist id p d → From es now dist' id p d
  From-stays id p d (inl h) = inl h
  From-stays id p d (inr (h, edge, q)) =
      inr (stays p h, edge, q ∙ ap suc (sym (cost_other p (apart p h))))

  into_offers :
      (id cost : ℕ) → Waits rest id cost → Waits (rest ++ offers (x.first + 1) x.second e) id cost
  into_offers id cost (z, m, q, r) = (z, Memᴰ.append_left _ m, q, r)

  -- An id that x waited for.
  reached_now : (id cost : ℕ) → x.second ≡ id → x.first ≡ cost → Settled now id × (dist' id ≡ cost)
  reached_now id cost q r = (subst (Settled now) q ms.here, ap dist' (sym q) ∙ cost_here ∙ r)

  waiting_now :
      (z : Triple)
      → Memᴰ z (rest ++ offers (x.first + 1) x.second e)
      → (x.first ≤ z.first) × (z.second < length es) × From es now dist' z.second z.third z.first
  waiting_now z m = elim (Memᴰ.append_cases rest m) [
    | inl old ↦
        let (_, within, from) = v.waiting z (polls.1 z old) in
        (polls.2 z (polls.1 z old), within, From-stays z.second z.third z.first from)
    | inr new ↦
        let (first, third, second) = offers-Offered (x.first + 1) x.second e z new in
        let edge : Edge es z.third z.second = (e, ap (get_elem? es) third ∙ here, second) in
        let (sk, cost) = reached_now z.third x.first (sym third) refl in
        (
          omega (arith, first),
          inside z.third z.second edge,
          inr (sk, edge, omega (arith, first, cost)),
        )
  ]

  relaxed_now :
      (k o : ℕ)
      → Settled now k
      → Edge es k o
      → (Settled now o × (dist' o ≤ suc (dist' k)))
        ⊎ Waits (rest ++ offers (x.first + 1) x.second e) o (suc (dist' k))
  relaxed_now k o sk edge = elim (was k sk) [
    | inl q ↦
        let (e', at_k, m) = edge in
        let same : e' ≡ e = Option.some-injective e' e (sym at_k ∙ ap (get_elem? es) q ∙ here) in
        let cost : dist' k ≡ x.first = ap dist' q ∙ cost_here in
        inr (
          _,
          Memᴰ.append_right rest
              (Offered-offers (x.first + 1) x.second o e (subst (Memᴰ o) same m)),
          refl,
          omega (arith, cost),
        )
    | inr old ↦
        let cost : dist' k ≡ dist k = cost_other k (apart k old) in
        elim (v.relaxed k o old edge) [
          | inl (so, le) ↦ inl (stays o so, omega (arith, cost, le, cost_other o (apart o so)))
          | inr w ↦ elim (polled_or_later es dist c s pq rest x v polls o (suc (dist k)) w) [
            | inl (q, r) ↦
                let (so, d) = reached_now o (suc (dist k)) q r in inl (so, omega (arith, d, cost))
            | inr later ↦
                inr (into_offers o (suc (dist' k)) (subst (Waits rest o) (ap suc (sym cost)) later))
          ]
        ]
  ]

  source_now : (Settled now 0 × (dist' 0 ≡ 0)) ⊎ Waits (rest ++ offers (x.first + 1) x.second e) 0 0
  source_now = elim v.source [
    | inl (so, d) ↦ inl (stays 0 so, cost_other 0 (apart 0 so) ∙ d)
    | inr w ↦ elim (polled_or_later es dist c s pq rest x v polls 0 0 w) [
      | inl (q, r) ↦ inl (reached_now 0 0 q r)
      | inr later ↦ inr (into_offers 0 0 later)
    ]
  ]

  far_now : (id : ℕ) → Settled now id → dist' id ≤ now.farthest_distance
  far_now id h = elim (was id h) [
    | inl q ↦ let cost : dist' id ≡ x.first = ap dist' q ∙ cost_here in ground (arith, cost)
    | inr old ↦
        let cost : dist' id ≡ dist id = cost_other id (apart id old) in
        ground (arith, cost, v.far id old)
  ]

  farthest_now :
      (Settled now now.farthest_node × (dist' now.farthest_node ≡ now.farthest_distance))
      ⊎ ((now.farthest_node ≡ 0) × (now.farthest_distance ≡ 0))
  farthest_now = elim (Bool-cases (ltb s.farthest_distance x.first)) [
    | inl more ↦ rw more (inl (ms.here, cost_here))
    | inr less ↦ rw less (elim v.farthest [
      | inl (so, d) ↦ inl (stays _ so, cost_other _ (apart _ so) ∙ d)
      | inr none_yet ↦ inr none_yet
    ])
  ]

  pub polled_first : IsSettled es dist' x.first now (rest ++ offers (x.first + 1) x.second e)
  polled_first = record {
    parents = ps.same ∙ v.parents;
    marks = ms.same ∙ v.marks;
    near = λ id h. elim (was id h) [
      | inl q ↦ rw q (omega (arith, cost_here))
      | inr old ↦
          omega (arith, cost_other id (apart id old), v.near id old, (v.waiting x polls.3).0)
    ];
    tree = λ id h. elim (was id h) [
      | inl q ↦ rw q (
        x.third,
        ps.here,
        rw cost_here (From-stays x.second x.third x.first (v.waiting x polls.3).2),
      )
      | inr old ↦
          let (p, at_id, from) = v.tree id old in
          (
            p,
            ps.other id (apart id old) ∙ at_id,
            rw (cost_other id (apart id old)) (From-stays id p (dist id) from),
          )
    ];
    waiting = waiting_now;
    relaxed = relaxed_now;
    source = source_now;
    far = far_now;
    farthest = farthest_now;
  }
