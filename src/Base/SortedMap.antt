-- ===== src/Base/SortedMap.antt =====
-- `std::map`: an association list in the order of its keys, each key once.
use mathlib.Core.Path.{◌≡◌, refl, ap, sym, subst}
use mathlib.Core.Logic.{◌↔◌, inl, inr}
use mathlib.Core.Bool.{Bool, true, false}
use mathlib.Core.List.{List, [], ◌∷◌}
use mathlib.Core.Option.{Option, none, some}
use native.Mathlib.Omega.{arith}
use Prim.Native.Nat.{ℕ}
use taquin_client_project.Base.Tests.{ltb, ◌==◌, ==_iff, if◌then◌else◌, Bool-cases}
use taquin_client_project.Base.Strings.{
  Bytes, bytes_eq, bytes_lt, bytes_eq_iff, bytes_lt_irrefl, bytes_lt_trans, bytes_lt_total,
}

-- What `std::map` asks of its keys.
pub record Key (K : Type 0) : Type 0 where
  pub eq : K → K → Bool
  pub before : K → K → Bool
  pub eq_iff : (a b : K) → (eq a b ≡ true) ↔ (a ≡ b)
  pub irrefl : (a : K) → before a a ≡ false
  pub trans : (a b c : K) → before a b ≡ true → before b c ≡ true → before a c ≡ true
  pub total : (a b : K) → eq a b ≡ false → before a b ≡ false → before b a ≡ true

pub ltb_irrefl : (a : ℕ) → ltb a a ≡ false
ltb_irrefl a = ground arith

pub ltb_trans : (a b c : ℕ) → ltb a b ≡ true → ltb b c ≡ true → ltb a c ≡ true
ltb_trans a b c h k = ground arith

pub ltb_total : (a b : ℕ) → (a == b) ≡ false → ltb a b ≡ false → ltb b a ≡ true
ltb_total a b h k = ground arith

instance abbrev pub nat_key : Key ℕ
nat_key = record {
  eq = ◌==◌;
  before = ltb;
  eq_iff = ==_iff;
  irrefl = ltb_irrefl;
  trans = ltb_trans;
  total = ltb_total;
}

instance abbrev pub bytes_key : Key Bytes
bytes_key = record {
  eq = bytes_eq;
  before = bytes_lt;
  eq_iff = bytes_eq_iff;
  irrefl = bytes_lt_irrefl;
  trans = bytes_lt_trans;
  total = bytes_lt_total;
}

module _ {K : Type 0} ⦃o : Key K⦄ {V : Type 0} where
  -- `find(k)`, with `none` for `end()`.
  unfoldable pub find : K → List (K × V) → Option V
  find k [] = none
  find k ((j, v) ∷ m) = if o.eq j k then some v else find k m

  -- `m[k] = v`.
  unfoldable pub put : K → V → List (K × V) → List (K × V)
  put k v [] = (k, v) ∷ []
  put k v ((j, w) ∷ m) =
      if o.eq j k
      then (k, v) ∷ m
      else if o.before k j
      then (k, v) ∷ (j, w) ∷ m
      else (j, w) ∷ put k v m

  -- `erase(find(k))`.
  unfoldable pub erase : K → List (K × V) → List (K × V)
  erase k [] = []
  erase k ((j, w) ∷ m) = let rest = erase k m in if o.eq j k then rest else (j, w) ∷ rest

  pub find-put :
      (k j : K) (v : V) (m : List (K × V))
      → find j (put k v m) ≡ (if o.eq k j then some v else find j m)
  unfolding find put
  find-put k j v [] = refl
  find-put k j v ((i, w) ∷ m) =
      ground (arith, o.eq_iff k j, o.eq_iff i k, o.eq_iff i j, find-put k j v m)

  pub find-erase :
      (k j : K) (m : List (K × V)) → find j (erase k m) ≡ (if o.eq k j then none else find j m)
  unfolding find erase
  find-erase k j [] = ground arith
  find-erase k j ((i, w) ∷ m) =
      ground (arith, o.eq_iff k j, o.eq_iff i k, o.eq_iff i j, find-erase k j m)

module _ {K : Type 0} ⦃o : Key K⦄ {V : Type 0} where
  -- Every key of the list comes after k.
  abbrev pub After : K → List (K × V) → Type 0
  After k [] = Unit {0}
  After k ((j, v) ∷ m) = (o.before k j ≡ true) × After k m

  -- The order that a `std::map` keeps, with each key once.
  abbrev pub IsSorted : List (K × V) → Type 0
  IsSorted [] = Unit {0}
  IsSorted ((j, v) ∷ m) = After j m × IsSorted m

  pub find-After : (k : K) (m : List (K × V)) → After k m → find k m ≡ none
  unfolding find
  find-After k [] a = refl
  find-After k ((j, v) ∷ m) a = elim (Bool-cases (o.eq j k)) [
    | inl e ↦ cc (a.0, ap (λ i. o.before k i) ((o.eq_iff j k).0 e), o.irrefl k)
    | inr e ↦ rw e (find-After k m a.1)
  ]

  After-trans : (i k : K) (m : List (K × V)) → o.before i k ≡ true → After k m → After i m
  After-trans i k [] h a = tt
  After-trans i k ((j, v) ∷ m) h a = (o.trans i k j h a.0, After-trans i k m h a.1)

  After-put :
      (i k : K) (v : V) (m : List (K × V)) → o.before i k ≡ true → After i m → After i (put k v m)
  unfolding put
  After-put i k v [] h a = (h, tt)
  After-put i k v ((j, w) ∷ m) h a = elim (Bool-cases (o.eq j k)) [
    | inl e ↦ rw e (h, a.1)
    | inr e ↦ elim (Bool-cases (o.before k j)) [
      | inl b ↦ rw (e, b) (h, a)
      | inr n ↦ rw (e, n) (a.0, After-put i k v m h a.1)
    ]
  ]

  pub put-IsSorted : (k : K) (v : V) (m : List (K × V)) → IsSorted m → IsSorted (put k v m)
  unfolding put
  put-IsSorted k v [] s = (tt, tt)
  put-IsSorted k v ((j, w) ∷ m) s = elim (Bool-cases (o.eq j k)) [
    | inl e ↦ rw e (subst (λ i. After i m) ((o.eq_iff j k).0 e) s.0, s.1)
    | inr e ↦ elim (Bool-cases (o.before k j)) [
      | inl b ↦ rw (e, b) ((b, After-trans k j m b s.0), s)
      | inr n ↦
          rw (e, n) (After-put j k v m (o.total k j (eq_sym j k e) n) s.0, put-IsSorted k v m s.1)
    ]
  ]
    where
      eq_sym : (a b : K) → o.eq a b ≡ false → o.eq b a ≡ false
      eq_sym a b h = elim (Bool-cases (o.eq b a)) [
        | inl e ↦ cc (h, (o.eq_iff a b).1 (sym ((o.eq_iff b a).0 e)))
        | inr e ↦ e
      ]

pub ==_refl : (n : ℕ) → (n == n) ≡ true
==_refl n = ground arith
