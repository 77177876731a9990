-- ===== src/Tests/Polling.antt =====
-- A queue that polls the first of its least triples.
use taquin_client_project.Base.{
  suc, ◌≡◌, ◌<◌, ◌≤◌, ◌⊎◌, ◌↔◌, ◌∙◌, ap, sym, refl, arith, Bool-cases, true, false, inl, inr,
  Option, none, some, List, [], ◌∷◌, length, if◌then◌else◌, is_nonneg,
}
use mathlib.Core.List.{Memᴰ}
use mathlib.Core.List.Memᴰ
use mathlib.Core.Logic.{⊎_elim}
use taquin_client_project.Solver.Graph.{Triple}
use taquin_client_project.Solver.Paths.{IsPoll, compare}

-- A least triple and the others.
unfoldable pub least : Triple → List Triple → Triple × List Triple
least x [] = (x, [])
least x (y ∷ ys) =
    let rest = least (if is_nonneg (compare y x) then x else y) ys in
    (rest.0, (if is_nonneg (compare y x) then y else x) ∷ rest.1)

unfoldable pub poll : List Triple → Option (Triple × List Triple)
unfolding least
poll [] = none
poll (x ∷ xs) = some (least x xs)

abbrev NotBefore : Triple → Triple → Type 0
NotBefore z x = (x.first < z.first) ⊎ ((x.first ≡ z.first) × (x.third ≤ z.third))

compare-NotBefore : (z x : Triple) → is_nonneg (compare z x) ≡ true → NotBefore z x
unfolding compare
compare-NotBefore z x h = ground arith

NotBefore-compare : (z x : Triple) → NotBefore z x → is_nonneg (compare z x) ≡ true
unfolding compare
NotBefore-compare z x h = ground arith

compare_refl : (x : Triple) → is_nonneg (compare x x) ≡ true
compare_refl x = NotBefore-compare x x (inr (refl, omega arith))

compare_trans :
    (x y z : Triple)
    → is_nonneg (compare y x) ≡ true
    → is_nonneg (compare z y) ≡ true
    → is_nonneg (compare z x) ≡ true
compare_trans x y z h k =
    NotBefore-compare z x (ground (arith, compare-NotBefore y x h, compare-NotBefore z y k))

compare_total : (x y : Triple) → is_nonneg (compare y x) ≡ false → is_nonneg (compare x y) ≡ true
unfolding compare
compare_total x y h = ground arith

abbrev IsLeast : Triple → List Triple → Triple × List Triple → Type 0
IsLeast x xs (m, rest) =
    (length rest ≡ length xs)
    × ((z : Triple) → Memᴰ z (x ∷ xs) ↔ ((z ≡ m) ⊎ Memᴰ z rest))
    × ((z : Triple) → Memᴰ z (x ∷ xs) → is_nonneg (compare z m) ≡ true)

one_of_two :
    (x y a b z : Triple) (ys : List Triple)
    → ((a ≡ x) × (b ≡ y)) ⊎ ((a ≡ y) × (b ≡ x))
    → Memᴰ z (x ∷ y ∷ ys) ↔ ((z ≡ b) ⊎ Memᴰ z (a ∷ ys))
one_of_two x y a b z ys (inl (p, q)) = (
  λ m.
      ⊎_elim (λ e. inr (Memᴰ.head (e ∙ sym p)))
        (λ n. ⊎_elim (λ e. inl (e ∙ sym q)) (λ l. inr (Memᴰ.tail l)) (Memᴰ.cases_cons n))
        (Memᴰ.cases_cons m),
  ⊎_elim (λ e. Memᴰ.tail (Memᴰ.head (e ∙ q)))
      (λ n. ⊎_elim (λ e. Memᴰ.head (e ∙ p)) (λ l. Memᴰ.tail (Memᴰ.tail l)) (Memᴰ.cases_cons n)),
)
one_of_two x y a b z ys (inr (p, q)) = (
  λ m.
      ⊎_elim (λ e. inl (e ∙ sym q))
        (λ n.
          ⊎_elim (λ e. inr (Memᴰ.head (e ∙ sym p))) (λ l. inr (Memᴰ.tail l)) (Memᴰ.cases_cons n))
        (Memᴰ.cases_cons m),
  ⊎_elim (λ e. Memᴰ.head (e ∙ q))
      (λ n.
        ⊎_elim (λ e. Memᴰ.tail (Memᴰ.head (e ∙ p))) (λ l. Memᴰ.tail (Memᴰ.tail l))
          (Memᴰ.cases_cons n)),
)

-- One comparison with y: the smaller a goes on, the other b stays.
smaller_first :
    (x y a b : Triple) (ys : List Triple) (r : Triple × List Triple)
    → ((a ≡ x) × (b ≡ y)) ⊎ ((a ≡ y) × (b ≡ x))
    → is_nonneg (compare b a) ≡ true
    → IsLeast a ys r
    → IsLeast x (y ∷ ys) (r.0, b ∷ r.1)
smaller_first x y a b ys r pair order (size, same, below) = (
  ap suc size,
  λ z. (
    λ m.
        ⊎_elim (λ e. inr (Memᴰ.head e)) (λ n. ⊎_elim inl (λ l. inr (Memᴰ.tail l)) ((same z).0 n))
          ((one_of_two x y a b z ys pair).0 m),
    λ w. (one_of_two x y a b z ys pair).1 (back z w),
  ),
  λ z m.
      ⊎_elim (λ e. rw e (compare_trans r.0 a b (below a (Memᴰ.head refl)) order)) (below z)
        ((one_of_two x y a b z ys pair).0 m),
)
  where
    back : (z : Triple) → (z ≡ r.0) ⊎ Memᴰ z (b ∷ r.1) → (z ≡ b) ⊎ Memᴰ z (a ∷ ys)
    back z (inl e) = inr ((same z).1 (inl e))
    back z (inr n) = ⊎_elim inl (λ l. inr ((same z).1 (inr l))) (Memᴰ.cases_cons n)

least-IsLeast : (x : Triple) (xs : List Triple) → IsLeast x xs (least x xs)
unfolding least
least-IsLeast x [] = (
  refl,
  λ z.
      (λ m. inl (Memᴰ.eq_of_singleton m), ⊎_elim (λ e. Memᴰ.head e) (λ m. absurd (Memᴰ.not-nil m))),
  λ z m. rw (Memᴰ.eq_of_singleton m) (compare_refl x),
)
least-IsLeast x (y ∷ ys) = elim (Bool-cases (is_nonneg (compare y x))) [
  | inl keep ↦
      rw keep (smaller_first x y x y ys (least x ys) (inl (refl, refl)) keep (least-IsLeast x ys))
  | inr swap ↦ rw swap (
      smaller_first x y y x ys (least y ys) (inr (refl, refl)) (compare_total x y swap)
        (least-IsLeast y ys))
]

pub poll-IsPoll : IsPoll poll
unfolding poll
poll-IsPoll = record {
  empty = refl;
  full = λ y ys.
      let (size, same, below) = least-IsLeast y ys in
      ((least y ys).0, (least y ys).1, refl, size, same, below);
}
