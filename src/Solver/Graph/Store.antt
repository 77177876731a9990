-- ===== src/Solver/Graph/Store.antt =====
-- The lists and the map of the graph.
use taquin_client_project.Base.{
  ℕ, zero, suc, ◌+◌, ◌≤◌, ◌<◌, ◌≡◌, ◌⊎◌, refl, ap, arith, ◌==◌, Bool-cases, inl, inr, none, some,
  List, [], ◌∷◌, ◌++◌, length, get_elem?, if◌then◌else◌,
}
use mathlib.Core.Logic.{⊎_elim, ◌↔◌}
use mathlib.Core.List.{Memᴰ}
use mathlib.Core.List.Memᴰ
use taquin_client_project.Result.{ok}
use taquin_client_project.Solver.Graph.{get, find_id, contains_key}

module _ {ℓ} {A : Type ℓ} where
  pub get_ok : (xs : List A) (i : ℕ) (x : A) → get_elem? xs i ≡ some x → get xs i ≡ ok x
  get_ok [] i x e = cc
  get_ok (y ∷ xs) zero x e = cc
  get_ok (y ∷ xs) (suc i) x e = get_ok xs i x e

  pub get_elem?-append_left :
      (xs ys : List A) (i : ℕ) (x : A) → get_elem? xs i ≡ some x → get_elem? (xs ++ ys) i ≡ some x
  get_elem?-append_left [] ys i x e = cc
  get_elem?-append_left (y ∷ xs) ys zero x e = e
  get_elem?-append_left (y ∷ xs) ys (suc i) x e = get_elem?-append_left xs ys i x e

  pub get_elem?-snoc :
      (xs : List A) (y : A) (i : ℕ) (x : A)
      → get_elem? (xs ++ y ∷ []) i ≡ some x
      → (get_elem? xs i ≡ some x) ⊎ ((i ≡ length xs) × (y ≡ x))
  get_elem?-snoc [] y zero x e = inr (refl, cc)
  get_elem?-snoc [] y (suc i) x e = cc
  get_elem?-snoc (z ∷ xs) y zero x e = inl e
  get_elem?-snoc (z ∷ xs) y (suc i) x e = elim (get_elem?-snoc xs y i x e) [
    | inl h ↦ inl h
    | inr (h, k) ↦ inr (ap suc h, k)
  ]

  pub get_elem?_lt : (xs : List A) (i : ℕ) (x : A) → get_elem? xs i ≡ some x → i < length xs
  get_elem?_lt [] i x e = cc
  get_elem?_lt (y ∷ xs) zero x e = omega arith
  get_elem?_lt (y ∷ xs) (suc i) x e = omega (arith, get_elem?_lt xs i x e)

  pub get_elem?-within : (xs : List A) (i : ℕ) → i < length xs → (x : A) × (get_elem? xs i ≡ some x)
  get_elem?-within [] i h = absurd (omega arith)
  get_elem?-within (x ∷ xs) zero h = (x, refl)
  get_elem?-within (x ∷ xs) (suc i) h = get_elem?-within xs i (omega arith)

pub Memᴰ-concat {ℓ} :
    {A : Type ℓ} (a x : A) (xs : List A) → Memᴰ a (xs ++ x ∷ []) ↔ (Memᴰ a xs ⊎ (a ≡ x))
Memᴰ-concat a x xs = (
  λ m. ⊎_elim inl (λ last. inr (Memᴰ.eq_of_singleton last)) (Memᴰ.append_cases xs m),
  ⊎_elim (Memᴰ.append_left _) (λ e. Memᴰ.append_right xs (Memᴰ.head e)),
)

-- The boards below n that are not in the map.
unfoldable pub unseen : ℕ → List (ℕ × ℕ) → ℕ
unseen zero ids = 0
unseen (suc n) ids = (if contains_key ids n then 0 else 1) + unseen n ids

unseen-above : (n b id : ℕ) (ids : List (ℕ × ℕ)) → n ≤ b → unseen n ((b, id) ∷ ids) ≡ unseen n ids
unfolding unseen
unseen-above zero b id ids h = refl
unseen-above (suc n) b id ids h = ground (arith, unseen-above n b id ids)

pub unseen-insert :
    (n b id : ℕ) (ids : List (ℕ × ℕ))
    → b < n
    → find_id ids b ≡ none
    → suc (unseen n ((b, id) ∷ ids)) ≡ unseen n ids
unfolding unseen
unseen-insert zero b id ids h e = absurd (omega arith)
unseen-insert (suc n) b id ids h e = elim (Bool-cases (b == n)) [
  | inl last ↦
      let same : b ≡ n = ground arith in
      let fresh : find_id ids n ≡ none = rw same at e in ground (arith, unseen-above n b id ids)
  | inr before ↦ ground (arith, unseen-insert n b id ids)
]

pub unseen-nil : (n : ℕ) → unseen n [] ≡ n
unfolding unseen
unseen-nil zero = refl
unseen-nil (suc n) = omega (arith, unseen-nil n)
