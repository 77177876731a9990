-- ===== src/Solver/Paths/Rounds.antt =====
-- The rounds of `dijkstra`, and that they end.
use taquin_client_project.Base.{
  ℕ, zero, suc, ◌+◌, ◌≤◌, ◌<◌, ◌≡◌, ◌∙◌, refl, ap, arith, ◌==◌, Bool, true, false, Bool-cases, inl,
  inr, Option, none, some, List, [], ◌∷◌, ◌++◌, length, length-append, get_elem?, is_nonneg,
}
use taquin_client_project.Result.{ok}
use taquin_client_project.Solver.Graph.{Triple, Graph}
use taquin_client_project.Solver.Graph.Edges.{Edge}
use taquin_client_project.Solver.Graph.Store.{get_ok, get_elem?-within}
use taquin_client_project.Solver.Paths.{Paths, IsPoll, compare, put, offers, settle, settle_all}
use taquin_client_project.Solver.Paths.Lists.{IsPut, put-IsPut, length-offers}
use taquin_client_project.Solver.Paths.Settled.{IsSettled, Polls, polled_again}
use taquin_client_project.Solver.Paths.Polled.{with_cost, settled_state, polled_first}

degree : Option (List ℕ) → ℕ
degree none = 0
degree (some e) = length e

when_marked : Option Bool → ℕ → ℕ
when_marked (some true) d = d
when_marked (some false) d = 0
when_marked none d = 0

-- The neighbours of the marked ids below n, counted for each.
unfoldable pub left : List (List ℕ) → List Bool → ℕ → ℕ
unfolding when_marked degree
left es marks zero = 0
left es marks (suc n) = when_marked (get_elem? marks n) (degree (get_elem? es n)) + left es marks n

module _ (es : List (List ℕ)) (marks marks' : List Bool) (i : ℕ)
    (p : IsPut marks i false marks') where
  left_below : (n : ℕ) → n ≤ i → left es marks' n ≡ left es marks n
  unfolding left
  left_below zero h = refl
  left_below (suc n) h = rw (p.other n (omega arith), left_below n (omega arith)) refl

  left-IsPut :
      (e : List ℕ) (n : ℕ)
      → get_elem? marks i ≡ some true
      → get_elem? es i ≡ some e
      → i < n
      → left es marks' n + length e ≡ left es marks n
  unfolding left when_marked degree
  left-IsPut e zero h k l = absurd (omega arith)
  left-IsPut e (suc n) h k l = elim (Bool-cases (i == n)) [
    | inl last ↦
        let same : n ≡ i = ground arith in
        rw (same, p.here, h, k) (omega (arith, left_below i (omega arith)))
    | inr before ↦ rw (p.other n (ground arith)) (omega (arith, left-IsPut e n h k (ground arith)))
  ]

-- What is left to do: the triples of the queue, and the neighbours of the marked ids.
abbrev pub to_do : List (List ℕ) → Paths → List Triple → ℕ
to_do es s pq = length pq + left es s.marks (length es)

module _ (g : Graph) (inside : (k o : ℕ) → Edge g.graph k o → o < length g.graph) where
  settle-unmarked :
      (s : Paths) (x : Triple) (rest : List Triple)
      → get_elem? s.marks x.second ≡ some false
      → settle g x (s, rest) ≡ ok (s, rest)
  unfolding settle
  settle-unmarked s x rest h = rw (get_ok s.marks x.second false h) refl

  settle-marked :
      (s : Paths) (x : Triple) (rest : List Triple) (marks : List Bool) (parents e : List ℕ)
      → get_elem? s.marks x.second ≡ some true
      → put s.marks x.second false ≡ ok marks
      → put s.parents x.second x.third ≡ ok parents
      → get_elem? g.graph x.second ≡ some e
      → settle g x (s, rest)
        ≡ ok (settled_state s x parents marks, rest ++ offers (x.first + 1) x.second e)
  unfolding settle
  settle-marked s x rest marks parents e h made made' k =
      rw (get_ok s.marks x.second true h, made, made', get_ok g.graph x.second e k) refl

  settle-IsSettled :
      (dist : ℕ → ℕ) (c : ℕ) (s : Paths) (pq rest : List Triple) (x : Triple)
      → IsSettled g.graph dist c s pq
      → Polls x rest pq
      → (s' : Paths) × (pq' : List Triple) × (dist' : ℕ → ℕ) × (c' : ℕ) × (settle g x (s, rest)
          ≡ ok (s', pq'))
        × IsSettled g.graph dist' c' s' pq'
        × (to_do g.graph s' pq' ≡ to_do g.graph s rest)
  settle-IsSettled dist c s pq rest x v polls =
      let within : x.second < length g.graph = (v.waiting x polls.3).1 in
      let (marked, h) = get_elem?-within s.marks x.second (omega (arith, within, v.marks)) in
      elim (Bool-cases marked) [
        | inr done ↦
            let before : get_elem? s.marks x.second ≡ some false = h ∙ ap some done in
            (
              s,
              rest,
              dist,
              c,
              settle-unmarked s x rest before,
              polled_again g.graph dist c s pq rest x v polls before,
              refl,
            )
        | inl waits ↦
            let fresh : get_elem? s.marks x.second ≡ some true = h ∙ ap some waits in
            let (e, k) = get_elem?-within g.graph x.second within in
            let (marks, made, ms) =
              put-IsPut s.marks x.second false (omega (arith, within, v.marks)) in
            let (parents, made', ps) =
              put-IsPut s.parents x.second x.third (omega (arith, within, v.parents)) in
            (
              settled_state s x parents marks,
              rest ++ offers (x.first + 1) x.second e,
              with_cost dist x.second x.first,
              x.first,
              settle-marked s x rest marks parents e fresh made made' k,
              polled_first g.graph dist c s pq rest x v polls fresh parents ps marks ms e k inside,
              omega (
                arith,
                length-append rest (offers (x.first + 1) x.second e),
                length-offers (x.first + 1) x.second e,
                left-IsPut g.graph s.marks marks x.second ms e (length g.graph) fresh k within,
              ),
            )
      ]

  -- The polled triple is least in its cost.
  compare_le : (z x : Triple) → is_nonneg (compare z x) ≡ true → x.first ≤ z.first
  unfolding compare
  compare_le z x h = ground arith

  pub settle_all-IsSettled :
      (poll : List Triple → Option (Triple × List Triple))
      → IsPoll poll
      → (fuel : ℕ) (dist : ℕ → ℕ) (c : ℕ) (s : Paths) (pq : List Triple)
      → IsSettled g.graph dist c s pq
      → to_do g.graph s pq < fuel
      → (s' : Paths) × (dist' : ℕ → ℕ) × (c' : ℕ) × (settle_all poll fuel g s pq ≡ some (ok s'))
        × IsSettled g.graph dist' c' s' []
  unfolding settle_all
  settle_all-IsSettled poll p zero dist c s pq v h = absurd (omega arith)
  settle_all-IsSettled poll p (suc fuel) dist c s [] v h =
      (s, dist, c, rw (p.empty, settle_all) refl, v)
  settle_all-IsSettled poll p (suc fuel) dist c s (y ∷ ys) v h =
      let (x, rest, polled, size, same, least) = p.full y ys in
      let polls : Polls x rest (y ∷ ys) = (
        λ z m. (same z).0 m,
        λ z m. (same z).1 (inr m),
        λ z m. compare_le z x (least z m),
        (same x).1 (inl refl),
      ) in
      let (s1, pq1, dist1, c1, settled, v1, work) =
        settle-IsSettled dist c s (y ∷ ys) rest x v polls in
      let (s2, dist2, c2, e, v2) =
        settle_all-IsSettled poll p fuel dist1 c1 s1 pq1 v1 (omega (arith, work, size, h)) in
      (s2, dist2, c2, rw (polled, settle_all) (rw (settled, settle_all) e), v2)
