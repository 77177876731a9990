-- ===== src/Base/Decimal.antt =====
-- Decimal text: what `operator<<` of a number and `std::to_string` print, and a reader for it.
use Prim.Native.Nat.{ℕ, zero, suc, ◌+◌, ◌-◌, ◌*◌, ◌/◌, ◌%◌, ◌≤◌, ◌<◌}
use mathlib.Core.Path.{◌≡◌}
use mathlib.Core.Bool.{◌&&◌}
use mathlib.Core.List.{[], ◌∷◌}
use mathlib.Core.Option.{Option, none, some}
use mathlib.Core.Logic.{inl, inr}
use native.Mathlib.Omega.{arith}
use taquin_client_project.Base.Tests.{ltb, leb, if◌then◌else◌, Bool-cases}
use taquin_client_project.Base.Lists.{length}
use taquin_client_project.Base.Int.{ℤ, pos, negsuc}
use taquin_client_project.Base.Strings.{Bytes}

-- Fuel n + 1 is enough for n: each round divides by ten.
print_digits : ℕ → ℕ → Bytes → Bytes
print_digits zero n out = out
print_digits (suc f) n out =
    let rest = print_digits f (n / 10) ((b'0' + n % 10) ∷ out) in
    if ltb n 10 then (b'0' + n) ∷ out else rest

unfoldable pub to_string : ℕ → Bytes
unfolding print_digits
to_string n = print_digits (suc n) n []

abbrev pub IsDigit : ℕ → Type 0
IsDigit c = (b'0' ≤ c) × (c ≤ b'9')

abbrev pub Digits : Bytes → Type 0
Digits [] = Unit {0}
Digits (c ∷ s) = IsDigit c × Digits s

print_digits-Digits : (f n : ℕ) (out : Bytes) → Digits out → Digits (print_digits f n out)
unfolding print_digits
print_digits-Digits zero n out h = h
print_digits-Digits (suc f) n out h = elim (Bool-cases (ltb n 10)) [
  | inl e ↦ rw e (ground arith, h)
  | inr e ↦ rw e (print_digits-Digits f (n / 10) _ (ground arith, h))
]

-- The text is of digits only.
pub to_string-Digits : (n : ℕ) → Digits (to_string n)
unfolding to_string
to_string-Digits n = print_digits-Digits (suc n) n [] tt

print_digits-length : (f n : ℕ) (out : Bytes) → length out ≤ length (print_digits f n out)
unfolding print_digits
print_digits-length zero n out = omega arith
print_digits-length (suc f) n out =
    ground (arith, print_digits-length f (n / 10) ((b'0' + n % 10) ∷ out))

-- The text is not empty.
pub to_string_pos : (n : ℕ) → 0 < length (to_string n)
unfolding to_string print_digits
to_string_pos n = ground (arith, print_digits-length n (n / 10) ((b'0' + n % 10) ∷ []))

-- A reader of decimal text: a concrete reader that inverts `to_string`.
read_digits : ℕ → Bytes → Option ℕ
read_digits acc [] = some acc
read_digits acc (c ∷ s) =
    let rest = read_digits (acc * 10 + (c - b'0')) s in
    if leb b'0' c && leb c b'9' then rest else none

pub read_decimal : Bytes → Option ℕ
read_decimal s = read_digits 0 s

read_digits-print :
    (f n : ℕ) (out : Bytes) → n < f → read_digits 0 (print_digits f n out) ≡ read_digits n out
unfolding print_digits read_digits
read_digits-print zero n out h = elim h [ ]
read_digits-print (suc f) n out h = elim (Bool-cases (ltb n 10)) [
  | inl e ↦ rw e (ground arith)
  | inr e ↦
      rw (e, read_digits-print f (n / 10) ((b'0' + n % 10) ∷ out) (ground arith)) (ground arith)
]

pub read_decimal-to_string : (n : ℕ) → read_decimal (to_string n) ≡ some n
unfolding read_decimal to_string read_digits
read_decimal-to_string n = read_digits-print (suc n) n [] (omega arith)

-- `operator<<` of an `int`.
abbrev pub show_int : ℤ → Bytes
show_int (pos n) = to_string n
show_int (negsuc n) = b'-' ∷ to_string (suc n)
