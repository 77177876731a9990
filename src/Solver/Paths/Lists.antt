-- ===== src/Solver/Paths/Lists.antt =====
-- The lists that `dijkstra` fills and writes.
use taquin_client_project.Base.{
  ℕ, zero, suc, ◌+◌, ◌<◌, ◌≡◌, ◌≢◌, refl, ap, arith, Bool, true, ltb, Bool-cases, inl, inr, some,
  List, [], ◌∷◌, ◌++◌, length, length-append, get_elem?, get_elem?-append_right,
}
use mathlib.Core.List.{Memᴰ}
use mathlib.Core.List.Memᴰ
use taquin_client_project.Result.{ok}
use taquin_client_project.Solver.Graph.{Triple}
use taquin_client_project.Solver.Graph.Store.{get_elem?-append_left}
use taquin_client_project.Solver.Paths.{put, offers, unmarked}

module _ {ℓ} {A : Type ℓ} where
  -- A list with v in place i.
  pub record IsPut (xs : List A) (i : ℕ) (v : A) (ys : List A) : Type ℓ where
    pub same : length ys ≡ length xs
    pub here : get_elem? ys i ≡ some v
    pub other : (j : ℕ) → j ≢ i → get_elem? ys j ≡ get_elem? xs j

  pub put-IsPut :
      (xs : List A) (i : ℕ) (v : A)
      → i < length xs
      → (ys : List A) × (put xs i v ≡ ok ys) × IsPut xs i v ys
  unfolding put
  put-IsPut [] i v h = absurd (omega arith)
  put-IsPut (x ∷ xs) zero v h = (v ∷ xs, refl, record { same = refl; here = refl; other = other })
    where
      other : (j : ℕ) → j ≢ zero → get_elem? (v ∷ xs) j ≡ get_elem? (x ∷ xs) j
      other zero n = absurd (n refl)
      other (suc j) n = refl
  put-IsPut (x ∷ xs) (suc i) v h =
      let (ys, made, p) = put-IsPut xs i v (omega arith) in
      (x ∷ ys, rw made refl, record { same = ap suc p.same; here = p.here; other = other ys p })
    where
      other :
          (ys : List A)
          → IsPut xs i v ys
          → (j : ℕ) → j ≢ suc i
          → get_elem? (x ∷ ys) j ≡ get_elem? (x ∷ xs) j
      other ys p zero n = refl
      other ys p (suc j) n = p.other j (λ e. n (ap suc e))

pub offers-Offered :
    (cost parent : ℕ) (es : List ℕ) (z : Triple)
    → Memᴰ z (offers cost parent es)
    → (z.first ≡ cost) × (z.third ≡ parent) × Memᴰ z.second es
unfolding offers
offers-Offered cost parent [] z m = absurd (Memᴰ.not-nil m)
offers-Offered cost parent (o ∷ es) z m = elim (Memᴰ.cases_cons m) [
  | inl e ↦ rw e (refl, refl, Memᴰ.head refl)
  | inr later ↦
      let (first, third, second) = offers-Offered cost parent es z later in
      (first, third, Memᴰ.tail second)
]

pub Offered-offers :
    (cost parent o : ℕ) (es : List ℕ)
    → Memᴰ o es
    → Memᴰ (record { first = cost; second = o; third = parent }) (offers cost parent es)
unfolding offers
Offered-offers cost parent o [] m = absurd (Memᴰ.not-nil m)
Offered-offers cost parent o (x ∷ es) m = elim (Memᴰ.cases_cons m) [
  | inl e ↦ rw e (Memᴰ.head refl)
  | inr later ↦ Memᴰ.tail (Offered-offers cost parent o es later)
]

pub length-offers : (cost parent : ℕ) (es : List ℕ) → length (offers cost parent es) ≡ length es
unfolding offers
length-offers cost parent [] = refl
length-offers cost parent (o ∷ es) = ap suc (length-offers cost parent es)

-- Every id is its own parent at first, and every mark is set.
pub record IsUnmarked (n : ℕ) (s : List ℕ × List Bool) : Type 0 where
  pub parents : length s.0 ≡ n
  pub marks : length s.1 ≡ n
  pub marked : (i : ℕ) → i < n → get_elem? s.1 i ≡ some true

unmarked-IsUnmarked_from :
    (m i : ℕ) (ps : List ℕ) (ms : List Bool)
    → IsUnmarked i (ps, ms)
    → IsUnmarked (i + m) (unmarked m i ps ms)
unfolding unmarked
unmarked-IsUnmarked_from zero i ps ms h = let e : i + zero ≡ i = omega arith in rw e h
unmarked-IsUnmarked_from (suc m) i ps ms h =
    let e : i + suc m ≡ i + 1 + m = omega arith in
    rw e (
      unmarked-IsUnmarked_from m (i + 1) (ps ++ i ∷ []) (ms ++ true ∷ []) (record {
        parents = omega (arith, h.parents, length-append ps (i ∷ []));
        marks = omega (arith, h.marks, length-append ms (true ∷ []));
        marked = λ j l. elim (Bool-cases (ltb j i)) [
          | inl before ↦ get_elem?-append_left ms (true ∷ []) j true (h.marked j (ground arith))
          | inr after ↦
              let e : j ≡ length ms = ground (arith, h.marks) in
              rw e (get_elem?-append_right ms true [])
        ];
      }))

pub unmarked-IsUnmarked : (n : ℕ) → IsUnmarked n (unmarked n 0 [] [])
unmarked-IsUnmarked n =
    let e : 0 + n ≡ n = omega arith in
    rw e at (
      unmarked-IsUnmarked_from n 0 [] []
        (record { parents = refl; marks = refl; marked = λ i h. absurd (omega arith) }))
