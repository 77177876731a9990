-- ===== src/Client/Reconnect.antt =====
-- The reconnect policy of `client_impl`.
pub mod Rounds
use taquin_client_project.Base.{
  ℕ, ◌+◌, ◌*◌, ◌/◌, ◌^◌, ◌≤◌, ◌<◌, ◌≡◌, ◌⊎◌, refl, arith, ap, sym, ◌∙◌, Bool, true, false,
  Bool-cases, inl, inr, if◌then◌else◌, ltb,
}
use native.Mathlib.Nat.{mul-div_cancel, div-one, one-le-pow, mul-le-mul_right}
use taquin_client_project.Client.{Client}
use taquin_client_project.Client.Connection.{Doubles, min_double, min_unsigned, next_delay}

-- What the doubles of IEEE 754 and `pow` keep to, where `Is x p e` says that x is exactly p / 2 ^ e:
-- integers of 32 bits and 1.5 are exact; so are the powers of 1.5 up to the 32nd, and a product whose
-- numerator has at most 53 bits; any other product is rounded, but not past an exact integer of 32 bits that
-- it reaches, so that it is that integer if it is not greater; exact numbers are compared as fractions; and
-- the cast drops what is behind the point.
pub record DoubleLaws (d : Doubles) : Type 1 where
  pub Is : d.Double → ℕ → ℕ → Type 0
  pub integer : (n : ℕ) → n < 2 ^ 32 → Is (d.of_unsigned n) n 0
  pub literal : Is d.one_and_a_half 3 1
  pub powers : (n : ℕ) → n ≤ 32 → Is (d.power d.one_and_a_half n) (3 ^ n) n
  pub product :
      (x y : d.Double) (p q e : ℕ)
      → Is x p 0
      → Is y q e
      → p * q < 2 ^ 53
      → Is (d.times x y) (p * q) e
  pub rounded :
      (x y : d.Double) (p q e m : ℕ)
      → Is x p 0
      → Is y q e
      → m < 2 ^ 32
      → m * 2 ^ e ≤ p * q
      → d.less (d.of_unsigned m) (d.times x y) ≡ false
      → d.to_unsigned (d.times x y) ≡ m
  pub compared : (x y : d.Double) (p e q : ℕ) → Is x p e → Is y q 0 → d.less y x ≡ ltb (q * 2 ^ e) p
  pub cast : (x : d.Double) (p e : ℕ) → Is x p e → p < 2 ^ 32 * 2 ^ e → d.to_unsigned x ≡ p / 2 ^ e

-- The delay that the policy means after k reconnects: times 1.5 for each, rounded down, up to a maximum.
abbrev pub delay_after : ℕ → ℕ → ℕ → ℕ
delay_after delay most k =
    if ltb (most * 2 ^ k) (delay * 3 ^ k) then most else delay * 3 ^ k / 2 ^ k

-- The reconnects that count: 32 at most.
abbrev pub IsCount : ℕ → ℕ → Type 0
IsCount made k = ((made ≡ k) × (k ≤ 32)) ⊎ ((32 < made) × (k ≡ 32))

count-min : (made k : ℕ) → IsCount made k → (min_unsigned made 32 ≡ k) × (k ≤ 32)
count-min made k (inl (e, h)) = (ground arith, h)
count-min made k (inr (h, e)) = (ground arith, omega arith)

whole : (m k : ℕ) → m * 2 ^ k / 2 ^ k ≡ m
whole m k = mul-div_cancel m (one-le-pow k 2 (omega arith))

module _ (d : Doubles) (laws : DoubleLaws d) (a m k : ℕ) (small : a < 2 ^ 32) (most : m < 2 ^ 32)
    (count : k ≤ 32) where
  abbrev limit : d.Double
  limit = d.of_unsigned m

  abbrev grown : d.Double
  grown = d.times (d.of_unsigned a) (d.power d.one_and_a_half k)

  cast-limit : d.to_unsigned limit ≡ m
  cast-limit = laws.cast limit m 0 (laws.integer m most) (omega arith) ∙ div-one m

  exact_delay : a * 3 ^ k < 2 ^ 53 → d.to_unsigned (min_double d grown limit) ≡ delay_after a m k
  exact_delay h =
      let is : laws.Is grown (a * 3 ^ k) k =
        laws.product (d.of_unsigned a) (d.power d.one_and_a_half k) a (3 ^ k) k
          (laws.integer a small) (laws.powers k count) h in
      let test : d.less limit grown ≡ ltb (m * 2 ^ k) (a * 3 ^ k) =
        laws.compared grown limit (a * 3 ^ k) k m is (laws.integer m most) in
      let room : m * 2 ^ k ≤ 4294967295 * 2 ^ k = mul-le-mul_right (2 ^ k) (omega arith) in
      let one : 1 ≤ 2 ^ k = one-le-pow k 2 (omega arith) in
      elim (Bool-cases (ltb (m * 2 ^ k) (a * 3 ^ k))) [
        | inl e ↦ rw (test, e) cast-limit
        | inr e ↦ rw (test, e) (laws.cast grown (a * 3 ^ k) k is (ground arith))
      ]

  reached_delay :
      m * 2 ^ k ≤ a * 3 ^ k → d.to_unsigned (min_double d grown limit) ≡ delay_after a m k
  reached_delay h =
      let to_most : d.to_unsigned (min_double d grown limit) ≡ m =
        elim (Bool-cases (d.less limit grown)) [
          | inl e ↦ rw e cast-limit
          | inr e ↦ rw e (
              laws.rounded (d.of_unsigned a) (d.power d.one_and_a_half k) a (3 ^ k) k m
                (laws.integer a small) (laws.powers k count) most h e)
        ] in
      to_most ∙ elim (Bool-cases (ltb (m * 2 ^ k) (a * 3 ^ k))) [
        | inl e ↦ rw e refl
        | inr e ↦ let same : a * 3 ^ k ≡ m * 2 ^ k = ground arith in rw (e, same) (sym (whole m k))
      ]

-- Where the doubles keep the laws above, and the delay and the maximal delay are unsigned: with k the number
-- of reconnects made, or 32 if there are more, and where delay * 3 ^ k has at most 53 bits or
-- delay * 1.5 ^ k reaches the maximal delay, the next delay is delay * 1.5 ^ k, rounded down, or the maximal
-- delay if that is less.
pub next_delay-delay_after :
    (d : Doubles) (laws : DoubleLaws d) (c : Client) (k : ℕ)
    → c.reconn_delay < 2 ^ 32
    → c.reconn_delay_max < 2 ^ 32
    → IsCount c.reconn_made k
    → (c.reconn_delay * 3 ^ k < 2 ^ 53) ⊎ (c.reconn_delay_max * 2 ^ k ≤ c.reconn_delay * 3 ^ k)
    → next_delay d c ≡ delay_after c.reconn_delay c.reconn_delay_max k
unfolding next_delay
next_delay-delay_after d laws c k small most count h =
    let (same, short) = count-min c.reconn_made k count in
    rw (same, next_delay)
      (elim h [
        | inl e ↦ exact_delay d laws c.reconn_delay c.reconn_delay_max k small most short e
        | inr e ↦ reached_delay d laws c.reconn_delay c.reconn_delay_max k small most short e
      ])
