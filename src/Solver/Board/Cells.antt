-- ===== src/Solver/Board/Cells.antt =====
-- Cells of nbits bits in a set of c cells, the first cell on top.
use taquin_client_project.Base.{
  ℕ, suc, ◌+◌, ◌-◌, ◌*◌, ◌/◌, ◌%◌, ◌^◌, ◌≤◌, ◌<◌, ◌≡◌, ◌≢◌, ap, ◌∙◌, arith, ℤ, pos, ltb, Bool-cases,
  inl, inr, ◌⊎◌,
}
use native.Mathlib.Nat.{
  mul-le-mul_right, pos_of_ne-zero, mul-zero, div-lt_iff_lt-mul, add-mul, suc-mul, div-add-mod',
  mod-lt,
}
use taquin_client_project.Result.{ok}
use taquin_client_project.Solver.Bits.{bit, get_value, set_value}
use taquin_client_project.Solver.Bits.Laws.{
  window, get_loop-window, window_lt, window-set_loop, window-set_loop_other, bits-window,
  eq_of_bits, set_loop_lt,
}

-- The lowest bit of a cell.
abbrev pub offset : ℕ → ℕ → ℕ → ℕ
offset c nbits p = (c - 1 - p) * nbits

-- The number in a cell.
unfoldable pub cell : ℕ → ℕ → ℕ → ℕ → ℕ
cell c nbits b p = window nbits (offset c nbits p) b

module _ (c nbits : ℕ) where
  pub top : (p : ℕ) → p < c → c * nbits - p * nbits ≡ offset c nbits p + nbits
  top p h =
      let rest : ℕ = c - 1 - p in
      let whole : c ≡ p + suc rest = omega arith in
      let product : c * nbits ≡ (p + suc rest) * nbits = ap (λ (x : ℕ). x * nbits) whole in
      omega (arith, product, add-mul p (suc rest) nbits, suc-mul rest nbits)

  below : (p : ℕ) → p < c → offset c nbits p + nbits ≤ c * nbits
  below p h =
      let rest : ℕ = c - 1 - p in
      let most : suc rest * nbits ≤ c * nbits = mul-le-mul_right nbits (omega arith) in
      omega (arith, most, suc-mul rest nbits)

  apart : (p q : ℕ) → p < q → q < c → offset c nbits q + nbits ≤ offset c nbits p
  apart p q h k =
      let rest : ℕ = c - 1 - q in
      let most : suc rest * nbits ≤ (c - 1 - p) * nbits = mul-le-mul_right nbits (omega arith) in
      omega (arith, most, suc-mul rest nbits)

  either_side :
      (p q : ℕ)
      → p ≢ q
      → p < c
      → q < c
      → (offset c nbits p + nbits ≤ offset c nbits q)
        ⊎ (offset c nbits q + nbits ≤ offset c nbits p)
  either_side p q h k l = elim (Bool-cases (ltb p q)) [
    | inl less ↦ inr (apart p q (ground arith) l)
    | inr more ↦ inl (apart q p (ground (arith, h)) k)
  ]

  -- A read of a cell.
  pub get_value-cell :
      (p : ℕ) (b : ℕ) → p < c → get_value p nbits (c * nbits) b ≡ ok (cell c nbits b p)
  unfolding get_value cell
  get_value-cell p b h =
      let zero_add : 0 + window nbits (offset c nbits p) b ≡ window nbits (offset c nbits p) b =
        omega arith in
      rw (top p h) (get_loop-window nbits (offset c nbits p) b 0 ∙ ap ok zero_add)

  -- A write of a cell.
  pub set_value_lt :
      (p b : ℕ) (v : ℤ)
      → p < c
      → b < 2 ^ (c * nbits)
      → set_value p nbits (c * nbits) b v < 2 ^ (c * nbits)
  unfolding set_value
  set_value_lt p b v h k =
      rw (top p h) (set_loop_lt (c * nbits) nbits (offset c nbits p) b v (below p h) k)

  pub cell-set_value :
      (p b v : ℕ)
      → p < c
      → v < 2 ^ nbits
      → cell c nbits (set_value p nbits (c * nbits) b (pos v)) p ≡ v
  unfolding set_value cell
  cell-set_value p b v h k = rw (top p h) (window-set_loop nbits (offset c nbits p) b v k)

  pub cell-set_value_other :
      (p q b : ℕ) (v : ℤ)
      → p < c
      → q < c
      → q ≢ p
      → cell c nbits (set_value p nbits (c * nbits) b v) q ≡ cell c nbits b q
  unfolding set_value cell
  cell-set_value_other p q b v h k l = rw (top p h) (
      window-set_loop_other nbits (offset c nbits p) nbits (offset c nbits q) b v
        (either_side q p l k h))

  pub cell_lt : (b p : ℕ) → cell c nbits b p < 2 ^ nbits
  unfolding cell
  cell_lt b p = window_lt nbits (offset c nbits p) b

  -- Boards with equal cells are equal.
  pub eq_of_cells :
      (a b : ℕ)
      → a < 2 ^ (c * nbits)
      → b < 2 ^ (c * nbits)
      → ((p : ℕ) → p < c → cell c nbits a p ≡ cell c nbits b p)
      → a ≡ b
  unfolding cell
  eq_of_cells a b h k same = eq_of_bits (c * nbits) a b h k at_bit
    where
      at_bit : (j : ℕ) → j < c * nbits → bit j a ≡ bit j b
      at_bit j l =
          let some_bits : 0 < nbits =
            pos_of_ne-zero (λ e. absurd (omega (arith, mul-zero c, ap (λ (x : ℕ). c * x) e))) in
          let row : j / nbits < c = (div-lt_iff_lt-mul some_bits).1 l in
          let p : ℕ = c - 1 - j / nbits in
          let here : (c - 1 - p) * nbits + j % nbits ≡ j =
            let back : c - 1 - p ≡ j / nbits = omega arith in rw back (div-add-mod' j nbits) in
          rw here at (
            bits-window nbits (offset c nbits p) (offset c nbits p) a b (j % nbits)
              (same p (omega arith)) (mod-lt j some_bits))
