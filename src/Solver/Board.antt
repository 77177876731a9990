-- ===== src/Solver/Board.antt =====
-- solve/Taquin.java: a board with its sizes, and the solved one. From n = 46341 on the `int` `n*n` overflows: the
-- loop of `nBits` wraps it as Java does, and `construct`, which is behind that loop, is meant for smaller n.
pub mod Cells
pub mod Width
pub mod Solved
use mathlib.Core.Option
use taquin_client_project.Base.{
  ℕ, zero, suc, ◌+◌, ◌-◌, ◌*◌, ◌^◌, ◌%◌, ℤ, pos, ltb, ltb_ℤ, to_int32, ◌==◌, if◌then◌else◌, Option,
  none, some,
}
use taquin_client_project.Result.{Result, ok, err, out_of_range, ◌>>=◌}
use taquin_client_project.Solver.Bits.{set_bit, int_bit}

pub record Taquin : Type 0 where
  pub taquin_bs : ℕ
  pub mask_bits : ℕ
  pub nbits : ℕ
  pub size_bs : ℕ
  pub n : ℕ
  pub i_puzzle : ℕ
  pub j_puzzle : ℕ

-- `(char)((num<<k)-1)`: a shift takes k modulo 32, and a `char` has 16 bits.
unfoldable pub mask : ℕ → ℕ
mask k = (2 ^ (k % 32) + 65535) % 65536

-- `n*n-1` as an `int`.
unfoldable pub last_value : ℕ → ℤ
last_value n = to_int32 (pos (n * n + (2 ^ 32 - 1)))

-- The loop of `nBits`, on fuel, from k bits on.
unfoldable pub n_bits : ℕ → ℕ → ℕ → Option ℕ
unfolding mask last_value
n_bits zero k n = none
n_bits (suc fuel) k n =
    let rest = n_bits fuel (k + 1) n in if ltb_ℤ (pos (mask k)) (last_value n) then rest else some k

-- The loop of the member `setValueBS`, where `set` throws at a negative index.
unfoldable pub put_loop : ℕ → ℕ → ℕ → ℤ → Result ℕ
put_loop zero r b value = ok b
put_loop (suc k) r b value =
    let rest = put_loop k (r - 1) (set_bit (r - 1) (int_bit k value) b) value in
    if r == 0 then err out_of_range else rest

-- The loop of the constructor, with m cells left and i the next value.
unfoldable pub fill : ℕ → ℕ → ℕ → ℕ → ℕ → Result ℕ
unfolding put_loop
fill nbits size zero i b = ok b
fill nbits size (suc m) i b =
    put_loop nbits (size - (i - 1) * nbits) b (pos i) >>= λ b'. fill nbits size m (i + 1) b'

-- What the constructor does once the width k is known.
unfoldable pub construct : ℕ → ℕ → Result Taquin
unfolding fill mask
construct n k = fill k (k * n * n) (n * n - 1) 1 0 >>= λ b. ok (record {
  taquin_bs = b;
  mask_bits = mask k;
  nbits = k;
  size_bs = k * n * n;
  n = n;
  i_puzzle = n - 1;
  j_puzzle = n - 1;
})

-- `Taquin(n)`, for n from 1 on; `none` where the fuel of `nBits` runs out.
unfoldable pub new_taquin : ℕ → ℕ → Option (Result Taquin)
unfolding n_bits construct
new_taquin fuel n = Option.map (construct n) (n_bits fuel 0 n)
