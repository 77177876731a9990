-- ===== src/Solver/Paths/Shortest.antt =====
-- `dijkstra` ends, and the parents lead back to id 0 on shortest ways.
use taquin_client_project.Base.{
  ℕ, zero, suc, ◌+◌, ◌≤◌, ◌<◌, ◌≡◌, ◌≢◌, ◌∙◌, refl, ap, sym, subst, arith, Bool, true, false, inl,
  inr, Option, some, List, [], ◌∷◌, length, get_elem?,
}
use mathlib.Core.List.{Memᴰ}
use mathlib.Core.List.Memᴰ
use taquin_client_project.Result.{ok}
use taquin_client_project.Solver.Graph.{Triple, Graph}
use taquin_client_project.Solver.Graph.Edges.{Edge, Connected}
use taquin_client_project.Solver.Graph.Store.{get_elem?_lt}
use taquin_client_project.Solver.Paths.{Paths, IsPoll, unmarked, dijkstra}
use taquin_client_project.Solver.Paths.Lists.{IsUnmarked, unmarked-IsUnmarked}
use taquin_client_project.Solver.Paths.Settled.{Settled, IsSettled, From}
use taquin_client_project.Solver.Paths.Rounds.{left, to_do, settle_all-IsSettled}

-- All neighbours of all ids.
abbrev pub degrees : List (List ℕ) → ℕ
degrees [] = 0
degrees (e ∷ es) = length e + degrees es

-- Distances from id 0 that edges cannot shorten and parents go down by one.
pub record IsShortest (es : List (List ℕ)) (p : Paths) (dist : ℕ → ℕ) : Type 0 where
  pub root : (dist 0 ≡ 0) × (get_elem? p.parents 0 ≡ some 0)
  pub down :
      (id : ℕ)
      → 0 < id
      → id < length es
      → (q : ℕ) × (get_elem? p.parents id ≡ some q) × Edge es q id × (dist id ≡ suc (dist q))
  pub short : (k o : ℕ) → Edge es k o → dist o ≤ suc (dist k)
  pub farthest : (id : ℕ) → id < length es → dist id ≤ dist p.farthest_node
  pub within : p.farthest_node < length es

abbrev first_triple : Triple
first_triple = record { first = 0; second = 0; third = 0 }

left-cons :
    (es : List (List ℕ)) (ms : List Bool) (e : List ℕ) (m : Bool) (n : ℕ)
    → left (e ∷ es) (m ∷ ms) (suc n) ≡ left (e ∷ []) (m ∷ []) 1 + left es ms n
unfolding left
left-cons es ms e m zero = omega arith
left-cons es ms e m (suc n) = omega (arith, left-cons es ms e m n)

left-one : (e : List ℕ) (m : Bool) → left (e ∷ []) (m ∷ []) 1 ≤ length e
unfolding left
left-one e true = omega arith
left-one e false = omega arith

left-nil : (es : List (List ℕ)) (n : ℕ) → left es [] n ≡ 0
unfolding left
left-nil es zero = refl
left-nil es (suc n) = omega (arith, left-nil es n)

left_le : (es : List (List ℕ)) (ms : List Bool) → left es ms (length es) ≤ degrees es
unfolding left
left_le [] ms = omega arith
left_le (e ∷ es) [] = omega (arith, left-nil (e ∷ es) (suc (length es)))
left_le (e ∷ es) (m ∷ ms) =
    omega (arith, left-cons es ms e m (length es), left-one e m, left_le es ms)

module _ (es : List (List ℕ)) (inside : (k o : ℕ) → Edge es k o → o < length es)
    (some_id : 0 < length es) where
  module _ (ps : List ℕ) (ms : List Bool) (u : IsUnmarked (length es) (ps, ms)) where
    abbrev first_paths : Paths
    first_paths = record { parents = ps; marks = ms; farthest_node = 0; farthest_distance = 0 }

    none-Settled : (id : ℕ) → Settled first_paths id → id ≢ id
    none-Settled id h q =
        let both : some true ≡ some false =
          sym (u.marked id (omega (arith, get_elem?_lt ms id false h, u.marks))) ∙ h in
        cc

    first-IsSettled : IsSettled es (λ _. 0) 0 first_paths (first_triple ∷ [])
    first-IsSettled = record {
      parents = u.parents;
      marks = u.marks;
      near = λ id h. omega arith;
      tree = λ id h. absurd (none-Settled id h refl);
      waiting = λ x m.
          let e = Memᴰ.eq_of_singleton m in rw e (omega arith, some_id, inl (refl, refl, refl));
      relaxed = λ k o h edge. absurd (none-Settled k h refl);
      source = inr (_, Memᴰ.head refl, refl, refl);
      far = λ id h. omega arith;
      farthest = inr (refl, refl);
    }

  module _ (connected : Connected es) (dist : ℕ → ℕ) (c : ℕ) (s : Paths)
      (v : IsSettled es dist c s []) where
    first-Settled : Settled s 0 × (dist 0 ≡ 0)
    first-Settled = elim v.source [ inl h ↦ h | inr (x, m, _, _) ↦ absurd (Memᴰ.not-nil m) ]

    next-Settled : (k o : ℕ) → Settled s k → Edge es k o → Settled s o × (dist o ≤ suc (dist k))
    next-Settled k o h edge = elim (v.relaxed k o h edge) [
      | inl r ↦ r
      | inr (x, m, _, _) ↦ absurd (Memᴰ.not-nil m)
    ]

    all-Settled_below : (n id : ℕ) → id < n → id < length es → Settled s id
    all-Settled_below zero id h l = absurd (omega arith)
    all-Settled_below (suc n) zero h l = first-Settled.0
    all-Settled_below (suc n) (suc id) h l =
        let (k, less, edge) = connected (suc id) (omega arith) l in
        (next-Settled k (suc id) (all-Settled_below n k (omega arith) (omega arith)) edge).0

    all-Settled : (id : ℕ) → id < length es → Settled s id
    all-Settled id = all-Settled_below (suc id) id (omega arith)

    parent_of_first :
        (p : ℕ)
        → get_elem? s.parents 0 ≡ some p
        → From es s dist 0 p (dist 0)
        → get_elem? s.parents 0 ≡ some 0
    parent_of_first p at_0 (inl (_, e, _)) = at_0 ∙ ap some e
    parent_of_first p at_0 (inr (_, _, e)) = absurd (omega (arith, e, first-Settled.1))

    parent_below :
        (id p : ℕ)
        → 0 < id
        → From es s dist id p (dist id)
        → Edge es p id × (dist id ≡ suc (dist p))
    parent_below id p h (inl (e, _, _)) = absurd (omega arith)
    parent_below id p h (inr (_, edge, e)) = (edge, e)

    far_enough : Settled s s.farthest_node × (dist s.farthest_node ≡ s.farthest_distance)
    far_enough = elim v.farthest [
      | inl h ↦ h
      | inr (e, f) ↦
          (subst (Settled s) (sym e) first-Settled.0, ap dist e ∙ first-Settled.1 ∙ sym f)
    ]

    settled-IsShortest : IsShortest es s dist
    settled-IsShortest = record {
      root =
          let (p, at_0, from) = v.tree 0 first-Settled.0 in
          (first-Settled.1, parent_of_first p at_0 from);
      down = λ id h l.
          let (p, at_id, from) = v.tree id (all-Settled id l) in
          let (edge, e) = parent_below id p h from in (p, at_id, edge, e);
      short =
          λ k o edge. (next-Settled k o (all-Settled k (get_elem?_lt es k edge.0 edge.1)) edge).1;
      farthest = λ id l. omega (arith, far_enough.1, v.far id (all-Settled id l));
      within = omega (arith, get_elem?_lt s.marks s.farthest_node false far_enough.0, v.marks);
    }

-- On a graph with an id, whose edges stay within it, and in which every id but 0 has an edge from a smaller one,
-- `dijkstra` ends and throws nothing, whichever of the least triples the queue polls. Its parents then go
-- down to id 0 by distances that no edge shortens, and no id is further away than the farthest one.
pub dijkstra-IsShortest :
    (poll : List Triple → Option (Triple × List Triple)) (g : Graph)
    → IsPoll poll
    → ((k o : ℕ) → Edge g.graph k o → o < length g.graph)
    → 0 < length g.graph
    → Connected g.graph
    → (p : Paths) × (dist : ℕ → ℕ) × (dijkstra poll (degrees g.graph + 2) g ≡ some (ok p))
      × IsShortest g.graph p dist
unfolding dijkstra
dijkstra-IsShortest poll g least inside some_id connected =
    let u = unmarked-IsUnmarked (length g.graph) in
    let (ps, ms) = unmarked (length g.graph) 0 [] [] in
    let enough : to_do g.graph (first_paths g.graph inside some_id ps ms u) (first_triple ∷ [])
        < degrees g.graph + 2 =
      omega (arith, left_le g.graph ms) in
    let (p, dist, c, e, v) =
      settle_all-IsSettled g inside poll least (degrees g.graph + 2) (λ _. 0) 0
        (first_paths g.graph inside some_id ps ms u) (first_triple ∷ [])
        (first-IsSettled g.graph inside some_id ps ms u) enough in
    (p, dist, e, settled-IsShortest g.graph inside some_id connected dist c p v)
