-- ===== src/Solver/Bits/Laws.antt =====
-- What a cell holds, and what a write of one leaves.
use taquin_client_project.Base.{
  ℕ, zero, suc, ◌+◌, ◌-◌, ◌*◌, ◌/◌, ◌%◌, ◌^◌, ◌≤◌, ◌<◌, ◌≡◌, refl, ap, sym, ◌∙◌, arith, ℤ, pos,
  Bool, true, false, ◌==◌, if◌then◌else◌, Bool-cases, inl, inr, ◌⊎◌,
}
use native.Mathlib.Nat.{pow-succ'}
use taquin_client_project.Result.{ok}
use taquin_client_project.Solver.Bits.{bit, set_bit, int_bit, get_loop, set_loop}

pub bit-set_bit : (q j b : ℕ) (v : Bool) → bit j (set_bit q v b) ≡ (if q == j then v else bit j b)
unfolding bit set_bit
bit-set_bit zero zero b v = ground arith
bit-set_bit zero (suc j) b v =
    let half : (b / 2 * 2 + (if v then 1 else 0)) / 2 ≡ b / 2 = ground arith in
    rw half (ground arith)
bit-set_bit (suc q) zero b v = ground arith
bit-set_bit (suc q) (suc j) b v =
    let half : (set_bit q v (b / 2) * 2 + b % 2) / 2 ≡ set_bit q v (b / 2) = omega arith in
    rw half (ground (arith, bit-set_bit q j (b / 2) v))

-- The number that k bits from o upwards make.
unfoldable pub window : ℕ → ℕ → ℕ → ℕ
window zero o b = 0
window (suc k) o b = (if bit (o + k) b then 2 ^ k else 0) + window k o b

pub get_loop-window : (k o b value : ℕ) → get_loop k (o + k) b value ≡ ok (value + window k o b)
unfolding get_loop window
get_loop-window zero o b value = ap ok (omega arith)
get_loop-window (suc k) o b value =
    let here : o + suc k - 1 ≡ o + k = omega arith in
    let some_left : (o + suc k == 0) ≡ false = ground arith in
    rw (here, some_left)
      (get_loop-window k o b (value + (if bit (o + k) b then 2 ^ k else 0)) ∙ ap ok (omega arith))

-- Below bit k, and bit by bit.
pub window_lt : (k o b : ℕ) → window k o b < 2 ^ k
unfolding window
window_lt zero o b = omega arith
window_lt (suc k) o b = ground (arith, window_lt k o b, pow-succ' 2 k)

pub window-bits :
    (k o o' b b' : ℕ)
    → ((t : ℕ) → t < k → bit (o + t) b ≡ bit (o' + t) b')
    → window k o b ≡ window k o' b'
unfolding window
window-bits zero o o' b b' same = refl
window-bits (suc k) o o' b b' same =
    rw (same k (omega arith), window-bits k o o' b b' (λ t h. same t (omega arith)))

-- A number from its lowest bit on.
low : ℕ → ℕ → ℕ
low zero v = 0
low (suc k) v = v % 2 + 2 * low k (v / 2)

low-small : (k v : ℕ) → v < 2 ^ k → low k v ≡ v
unfolding low
low-small zero v h = omega arith
low-small (suc k) v h = omega (arith, low-small k (v / 2) (omega (arith, pow-succ' 2 k)))

low-top : (k v : ℕ) → low (suc k) v ≡ (if bit k v then 2 ^ k else 0) + low k v
unfolding low bit
low-top zero v = ground arith
low-top (suc k) v = ground (arith, low-top k (v / 2), pow-succ' 2 k)

window-low : (k v : ℕ) → window k 0 v ≡ low k v
unfolding window low
window-low zero v = refl
window-low (suc k) v =
    let zero_add : 0 + k ≡ k = omega arith in rw (zero_add, window-low k v) (sym (low-top k v))

-- Equal windows have equal bits.
top_bit :
    (a b : Bool) (p x y : ℕ)
    → x < p
    → y < p
    → (if a then p else 0) + x ≡ (if b then p else 0) + y
    → (a ≡ b) × (x ≡ y)
top_bit true true p x y h k e = (refl, omega arith)
top_bit true false p x y h k e = absurd (omega arith)
top_bit false true p x y h k e = absurd (omega arith)
top_bit false false p x y h k e = (refl, omega arith)

pub bits-window :
    (k o o' b b' t : ℕ) → window k o b ≡ window k o' b' → t < k → bit (o + t) b ≡ bit (o' + t) b'
unfolding window
bits-window zero o o' b b' t e h = elim h [ ]
bits-window (suc k) o o' b b' t e h =
    let (top, rest) =
      top_bit (bit (o + k) b) (bit (o' + k) b') (2 ^ k) (window k o b) (window k o' b')
        (window_lt k o b) (window_lt k o' b') e in
    elim (Bool-cases (t == k)) [
      | inl last ↦ let same : t ≡ k = ground arith in rw same top
      | inr before ↦ bits-window k o o' b b' t rest (ground arith)
    ]

pub window-small : (k v : ℕ) → v < 2 ^ k → window k 0 v ≡ v
window-small k v h = window-low k v ∙ low-small k v h

-- The bits of a window are those of the set.
pub bit-window : (k o b t : ℕ) → t < k → bit t (window k o b) ≡ bit (o + t) b
bit-window k o b t h =
    let w : ℕ = window k o b in
    let zero_add : 0 + t ≡ t = omega arith in
    rw zero_add at (bits-window k 0 o w b t (window-small k w (window_lt k o b)) h)

-- Two sets of s bits are equal where their bits are.
pub eq_of_bits : (s a b : ℕ) → a < 2 ^ s → b < 2 ^ s → ((j : ℕ) → j < s → bit j a ≡ bit j b) → a ≡ b
eq_of_bits s a b h k same =
    sym (window-small s a h)
    ∙ window-bits s 0 0 a b
        (λ t l. let zero_add : 0 + t ≡ t = omega arith in rw zero_add (same t l))
    ∙ window-small s b k

pub set_bit_lt : (s q b : ℕ) (v : Bool) → q < s → b < 2 ^ s → set_bit q v b < 2 ^ s
unfolding set_bit
set_bit_lt zero q b v h k = elim h [ ]
set_bit_lt (suc s) zero b v h k = ground (arith, pow-succ' 2 s)
set_bit_lt (suc s) (suc q) b v h k =
    omega
      (arith, pow-succ' 2 s, set_bit_lt s q (b / 2) v (omega arith) (omega (arith, pow-succ' 2 s)))

pub set_loop_lt : (s k o b : ℕ) (v : ℤ) → o + k ≤ s → b < 2 ^ s → set_loop k (o + k) b v < 2 ^ s
unfolding set_loop
set_loop_lt s zero o b v h l = l
set_loop_lt s (suc k) o b v h l =
    let here : o + suc k - 1 ≡ o + k = omega arith in
    let some_left : (o + suc k == 0) ≡ false = ground arith in
    rw (here, some_left)
      (set_loop_lt s k o _ v (omega arith) (set_bit_lt s (o + k) b (int_bit k v) (omega arith) l))

step_down :
    (k o b : ℕ) (v : ℤ)
    → set_loop (suc k) (o + suc k) b v ≡ set_loop k (o + k) (set_bit (o + k) (int_bit k v) b) v
unfolding set_loop
step_down k o b v =
    let here : o + suc k - 1 ≡ o + k = omega arith in
    let some_left : (o + suc k == 0) ≡ false = ground arith in rw (here, some_left) refl

-- The bits after a write of k bits from o upwards.
pub bit-set_loop_out :
    (k o b j : ℕ) (v : ℤ) → (j < o) ⊎ (o + k ≤ j) → bit j (set_loop k (o + k) b v) ≡ bit j b
unfolding set_loop
bit-set_loop_out zero o b j v h = refl
bit-set_loop_out (suc k) o b j v h =
    let other : (o + k == j) ≡ false = ground (arith, h) in
    rw
      (
        step_down k o b v,
        bit-set_loop_out k o (set_bit (o + k) (int_bit k v) b) j v (ground (arith, h)),
        bit-set_bit (o + k) j b (int_bit k v),
        other,
      )
      refl

pub bit-set_loop_in :
    (k o b t : ℕ) (v : ℤ) → t < k → bit (o + t) (set_loop k (o + k) b v) ≡ int_bit t v
bit-set_loop_in zero o b t v h = elim h [ ]
bit-set_loop_in (suc k) o b t v h = rw (step_down k o b v) (elim (Bool-cases (t == k)) [
  | inl last ↦
      let same : t ≡ k = ground arith in
      let itself : (o + k == o + k) ≡ true = ground arith in
      rw
        (
          same,
          bit-set_loop_out k o (set_bit (o + k) (int_bit k v) b) (o + k) v (inr (omega arith)),
          bit-set_bit (o + k) (o + k) b (int_bit k v),
          itself,
        )
        refl
  | inr before ↦ bit-set_loop_in k o (set_bit (o + k) (int_bit k v) b) t v (ground arith)
])

-- A cell that is written holds the value, where the value has k bits.
pub window-set_loop : (k o b v : ℕ) → v < 2 ^ k → window k o (set_loop k (o + k) b (pos v)) ≡ v
unfolding int_bit
window-set_loop k o b v h =
    window-bits k o 0 (set_loop k (o + k) b (pos v)) v (λ t l.
      let zero_add : 0 + t ≡ t = omega arith in rw zero_add (bit-set_loop_in k o b t (pos v) l))
    ∙ window-small k v h

-- A cell apart from the written one is as before.
pub window-set_loop_other :
    (k o k' o' b : ℕ) (v : ℤ)
    → (o' + k' ≤ o) ⊎ (o + k ≤ o')
    → window k' o' (set_loop k (o + k) b v) ≡ window k' o' b
window-set_loop_other k o k' o' b v h =
    window-bits k' o' o' (set_loop k (o + k) b v) b
      (λ t l. bit-set_loop_out k o b (o' + t) v (apart t l h))
  where
    apart : (t : ℕ) → t < k' → (o' + k' ≤ o) ⊎ (o + k ≤ o') → (o' + t < o) ⊎ (o + k ≤ o' + t)
    apart t l (inl p) = inl (omega arith)
    apart t l (inr p) = inr (omega arith)
