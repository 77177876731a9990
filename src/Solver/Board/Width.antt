-- ===== src/Solver/Board/Width.antt =====
-- The number of bits of a cell.
use taquin_client_project.Base.{
  ℕ, zero, suc, ◌+◌, ◌-◌, ◌*◌, ◌^◌, ◌%◌, ◌≤◌, ◌<◌, true, false, ◌≡◌, refl, ◌∙◌, arith, ltb, ltb_ℤ,
  to_int32, pos, Bool-cases, inl, inr, none, some,
}
use native.Mathlib.Nat.{mul-le-mul, one-le-mul, one-le-pow, pow-le-pow_right}
use taquin_client_project.Solver.Board.{mask, last_value, n_bits}

mask-small : (k : ℕ) → k ≤ 16 → mask k ≡ 2 ^ k - 1
unfolding mask
mask-small k h =
    let short : k % 32 ≡ k = omega arith in
    let most : 2 ^ k ≤ 2 ^ 16 = pow-le-pow_right (omega arith) h in
    let least : 1 ≤ 2 ^ k = one-le-pow k 2 (omega arith) in rw short (omega (arith, most, least))

-- What `nBits` stops at: enough bits for the n * n numbers, and no more.
pub record IsWidth (n k : ℕ) : Type 0 where
  pub enough : n * n ≤ 2 ^ k
  pub least : (j : ℕ) → j < k → 2 ^ j < n * n

-- Up to n = 46340 the square does not overflow.
last_value-exact : (n : ℕ) → 1 ≤ n → n ≤ 46340 → last_value n ≡ pos (n * n - 1)
unfolding last_value to_int32
last_value-exact n h k =
    let least : 1 ≤ n * n = one-le-mul h h in
    let most : n * n ≤ 46340 * 46340 = mul-le-mul k k in
    let wraps : (n * n + (2 ^ 32 - 1)) % 2 ^ 32 ≡ n * n - 1 = omega arith in ground arith

step :
    (fuel k n : ℕ)
    → ltb_ℤ (pos (mask k)) (last_value n) ≡ true
    → n_bits (suc fuel) k n ≡ n_bits fuel (k + 1) n
unfolding n_bits
step fuel k n e = rw e refl

stop : (fuel k n : ℕ) → ltb_ℤ (pos (mask k)) (last_value n) ≡ false → n_bits (suc fuel) k n ≡ some k
unfolding n_bits
stop fuel k n e = rw e refl

-- The test of the loop, where the square does not overflow.
more_bits :
    (k n : ℕ) → 1 ≤ n → n ≤ 46340 → ltb_ℤ (pos (mask k)) (last_value n) ≡ ltb (mask k) (n * n - 1)
more_bits k n h l = rw (last_value-exact n h l) (ground arith)

up_to :
    (k n : ℕ)
    → ((j : ℕ) → j < k → 2 ^ j < n * n)
    → 2 ^ k < n * n
    → (j : ℕ) → j < k + 1
    → 2 ^ j < n * n
up_to k n l more j i = elim (Bool-cases (ltb j k)) [
  | inl e ↦ l j (ground arith)
  | inr e ↦ let same : j ≡ k = ground arith in rw same more
]

module _ (n : ℕ) (some_cell : 1 ≤ n) (most : n ≤ 256) where
  n_bits-IsWidth_from :
      (fuel k : ℕ)
      → k + fuel ≡ 17
      → ((j : ℕ) → j < k → 2 ^ j < n * n)
      → (w : ℕ) × (n_bits fuel k n ≡ some w) × IsWidth n w
  n_bits-IsWidth_from zero k h l =
      let cells : n * n ≤ 256 * 256 = mul-le-mul most most in
      absurd (omega (arith, l 16 (omega arith)))
  n_bits-IsWidth_from (suc fuel) k h l =
      let bits : mask k ≡ 2 ^ k - 1 = mask-small k (omega arith) in
      let one : 1 ≤ 2 ^ k = one-le-pow k 2 (omega arith) in
      let cells : 1 ≤ n * n = one-le-mul some_cell some_cell in
      let test = more_bits k n some_cell (omega arith) in
      elim (Bool-cases (ltb (mask k) (n * n - 1))) [
        | inl e ↦
            let more : 2 ^ k < n * n = ground arith in
            rw (step fuel k n (test ∙ e))
              (n_bits-IsWidth_from fuel (k + 1) (omega arith) (λ j i. up_to k n l more j i))
        | inr e ↦ (k, stop fuel k n (test ∙ e), record { enough = ground arith; least = l })
      ]

-- Seventeen rounds find the least number of bits that tells n * n numbers apart.
pub n_bits-IsWidth : (n : ℕ) → 1 ≤ n → n ≤ 256 → (w : ℕ) × (n_bits 17 0 n ≡ some w) × IsWidth n w
n_bits-IsWidth n h k = n_bits-IsWidth_from n h k 17 0 (omega arith) (λ j l. elim l [ ])

mask-le : (k : ℕ) → mask k ≤ 65535
unfolding mask
mask-le k = omega arith

-- For n from 257 to 46340, where the square does not overflow, the loop of `nBits` does not stop within any
-- number of rounds, from whatever width it starts.
pub n_bits_endless : (fuel k n : ℕ) → 257 ≤ n → n ≤ 46340 → n_bits fuel k n ≡ none
unfolding n_bits
n_bits_endless zero k n h l = refl
n_bits_endless (suc fuel) k n h l =
    let cells : 257 * 257 ≤ n * n = mul-le-mul h h in
    let small : mask k ≤ 65535 = mask-le k in
    let more : ltb (mask k) (n * n - 1) ≡ true = ground arith in
    step fuel k n (more_bits k n (omega arith) l ∙ more) ∙ n_bits_endless fuel (k + 1) n h l
