-- ===== src/Solver/Board/Solved.antt =====
-- The board that the constructor makes.
use mathlib.Core.Option
use taquin_client_project.Base.{
  ℕ, zero, suc, ◌+◌, ◌-◌, ◌*◌, ◌^◌, ◌≤◌, ◌<◌, ◌≡◌, refl, ap, ◌∙◌, arith, ◌==◌, false, Bool-cases,
  inl, inr, some, ℤ, pos,
}
use native.Mathlib.Nat.{mul_comm, mul_assoc, one-le-pow, one-le-mul}
use taquin_client_project.Result.{Result, ok, ◌>>=◌}
use taquin_client_project.Solver.Bits.{set_loop, set_bit, int_bit, set_value, bit}
use taquin_client_project.Solver.Bits.Laws.{window}
use taquin_client_project.Solver.Board.{Taquin, mask, n_bits, put_loop, fill, construct, new_taquin}
use taquin_client_project.Solver.Board.Cells.{
  cell, offset, top, cell-set_value, cell-set_value_other, set_value_lt,
}
use taquin_client_project.Solver.Board.Width.{IsWidth, n_bits-IsWidth}

-- Cells 0, 1, 2, ... hold 1, 2, 3, ..., and the last one holds 0.
pub record IsSolved (n : ℕ) (t : Taquin) : Type 0 where
  pub width : IsWidth n t.nbits
  pub size : t.size_bs ≡ n * n * t.nbits
  pub bounded : t.taquin_bs < 2 ^ t.size_bs
  pub numbered : (p : ℕ) → suc p < n * n → cell (n * n) t.nbits t.taquin_bs p ≡ suc p
  pub blank : cell (n * n) t.nbits t.taquin_bs (n * n - 1) ≡ 0
  pub side : t.n ≡ n
  pub row : t.i_puzzle ≡ n - 1
  pub column : t.j_puzzle ≡ n - 1

put_loop-set_loop : (k o b : ℕ) (v : ℤ) → put_loop k (o + k) b v ≡ ok (set_loop k (o + k) b v)
unfolding put_loop set_loop
put_loop-set_loop zero o b v = refl
put_loop-set_loop (suc k) o b v =
    let here : o + suc k - 1 ≡ o + k = omega arith in
    let some_left : (o + suc k == 0) ≡ false = ground arith in
    rw (here, some_left) (put_loop-set_loop k o (set_bit (o + k) (int_bit k v) b) v)

bit-zero : (q : ℕ) → bit q 0 ≡ false
unfolding bit
bit-zero zero = refl
bit-zero (suc q) = bit-zero q

window-zero : (k o : ℕ) → window k o 0 ≡ 0
unfolding window
window-zero zero o = refl
window-zero (suc k) o = rw (bit-zero (o + k)) (omega (arith, window-zero k o))

module _ (c k : ℕ) where
  put_loop-set_value :
      (p b : ℕ) (v : ℤ) → p < c → put_loop k (c * k - p * k) b v ≡ ok (set_value p k (c * k) b v)
  unfolding set_value
  put_loop-set_value p b v h = rw (top c k p h) (put_loop-set_loop k (offset c k p) b v)

  -- The cells when i is the next value.
  record IsFilled (i b : ℕ) : Type 0 where
    bounded : b < 2 ^ (c * k)
    numbered : (p : ℕ) → suc p < i → cell c k b p ≡ suc p
    blank : (p : ℕ) → i ≤ suc p → p < c → cell c k b p ≡ 0

  write-IsFilled :
      (i b : ℕ)
      → suc i < c
      → c ≤ 2 ^ k
      → IsFilled (suc i) b
      → IsFilled (suc (suc i)) (set_value i k (c * k) b (pos (suc i)))
  write-IsFilled i b h l f = record {
    bounded = set_value_lt c k i b (pos (suc i)) (omega arith) f.bounded;
    numbered = λ p e. elim (Bool-cases (p == i)) [
      | inl same ↦
          let eq : p ≡ i = ground arith in
          rw eq (cell-set_value c k i b (suc i) (omega arith) (omega arith))
      | inr other ↦
          cell-set_value_other c k i p b (pos (suc i)) (omega arith) (omega arith) (ground arith)
          ∙ f.numbered p (ground arith)
    ];
    blank = λ p e m.
        cell-set_value_other c k i p b (pos (suc i)) (omega arith) m (omega arith)
        ∙ f.blank p (omega arith) m;
  }

  fill-step :
      (m i b : ℕ)
      → i < c
      → fill k (c * k) (suc m) (suc i) b
        ≡ fill k (c * k) m (suc (suc i)) (set_value i k (c * k) b (pos (suc i)))
  unfolding fill
  fill-step m i b h =
      let back : suc i - 1 ≡ i = omega arith in
      let next : suc i + 1 ≡ suc (suc i) = omega arith in
      rw (back, put_loop-set_value i b (pos (suc i)) h, next) refl

  fill-IsFilled :
      (m i b : ℕ)
      → suc i + m ≡ c
      → c ≤ 2 ^ k
      → IsFilled (suc i) b
      → (b' : ℕ) × (fill k (c * k) m (suc i) b ≡ ok b') × IsFilled c b'
  unfolding fill
  fill-IsFilled zero i b h l f = (b, refl, let last : suc i ≡ c = omega arith in rw last at f)
  fill-IsFilled (suc m) i b h l f =
      let (b', e, g) =
        fill-IsFilled m (suc i) (set_value i k (c * k) b (pos (suc i))) (omega arith) l
          (write-IsFilled i b (omega arith) l f) in
      (b', fill-step m i b (omega arith) ∙ e, g)

empty-IsFilled : (c k : ℕ) → IsFilled c k 1 0
unfolding cell
empty-IsFilled c k = record {
  bounded = one-le-pow (c * k) 2 (omega arith);
  numbered = λ p h. absurd (omega arith);
  blank = λ p h l. window-zero k (offset c k p);
}

abbrev finished : ℕ → ℕ → ℕ → Taquin
finished n k b = record {
  taquin_bs = b;
  mask_bits = mask k;
  nbits = k;
  size_bs = k * n * n;
  n = n;
  i_puzzle = n - 1;
  j_puzzle = n - 1;
}

new_taquin-finished :
    (fuel n k b : ℕ)
    → n_bits fuel 0 n ≡ some k
    → fill k (k * n * n) (n * n - 1) 1 0 ≡ ok b
    → new_taquin fuel n ≡ some (ok (finished n k b))
unfolding new_taquin construct
new_taquin-finished fuel n k b e made =
    ap (Option.map (construct n)) e
    ∙ ap (λ (r : Result ℕ). some (r >>= λ b. ok (finished n k b))) made

-- For 1 <= n <= 256 the constructor makes the solved board of n * n cells: seventeen rounds of `nBits` find
-- the least width that tells the n * n numbers apart, the writes stay within the set, the cells hold
-- 1, 2, ..., n * n - 1 and then 0, and the blank is in the last row and column.
pub new_taquin-IsSolved :
    (n : ℕ) → 1 ≤ n → n ≤ 256 → (t : Taquin) × (new_taquin 17 n ≡ some (ok t)) × IsSolved n t
new_taquin-IsSolved n h l =
    let (k, e, w) = n_bits-IsWidth n h l in
    let area : k * n * n ≡ n * n * k = mul_assoc k n n ∙ mul_comm k (n * n) in
    let cells : 1 ≤ n * n = one-le-mul h h in
    let (b, made, f) =
      fill-IsFilled (n * n) k (n * n - 1) 0 0 (omega arith) w.enough (empty-IsFilled (n * n) k) in
    (
      finished n k b,
      new_taquin-finished 17 n k b e (rw area made),
      record {
        width = w;
        size = area;
        bounded = rw area f.bounded;
        numbered = f.numbered;
        blank = f.blank (n * n - 1) (omega arith) (omega arith);
        side = refl;
        row = refl;
        column = refl;
      },
    )
