-- ===== src/Solver/Bits.antt =====
-- `BitSet`, and solve/Utils.java: cells of `nbits` bits in a set of `size` bits, the first cell on top.
-- The set is the number whose bits are its elements. A number `value` of 32 bits is small here, so that
-- `|=` with a fresh bit is an addition.
pub mod Laws
use taquin_client_project.Base.{
  ℕ, zero, suc, ◌+◌, ◌-◌, ◌*◌, ◌/◌, ◌%◌, ◌^◌, ℤ, pos, negsuc, Bool, true, false, not, ◌==◌,
  if◌then◌else◌, List, [], ◌∷◌,
}
use taquin_client_project.Result.{Result, ok, err, out_of_range}

-- `BitSet.get(q)`
unfoldable pub bit : ℕ → ℕ → Bool
bit zero b = b % 2 == 1
bit (suc q) b = bit q (b / 2)

-- `BitSet.set(q, v)`
unfoldable pub set_bit : ℕ → Bool → ℕ → ℕ
set_bit zero v b = b / 2 * 2 + (if v then 1 else 0)
set_bit (suc q) v b = set_bit q v (b / 2) * 2 + b % 2

-- `((value>>k)&1)==1`, in two's complement.
unfoldable pub int_bit : ℕ → ℤ → Bool
int_bit k (pos n) = bit k n
int_bit k (negsuc n) = not (bit k n)

-- `getPosition(i, j, n)`
abbrev pub position : ℕ → ℕ → ℕ → ℕ
position n i j = i * n + j

-- The loop of `getValueBS`, with k bits left and r for q + 1. `get` throws at a negative index.
unfoldable pub get_loop : ℕ → ℕ → ℕ → ℕ → Result ℕ
get_loop zero r b value = ok value
get_loop (suc k) r b value =
    let rest = get_loop k (r - 1) b (value + (if bit (r - 1) b then 2 ^ k else 0)) in
    if r == 0 then err out_of_range else rest

-- `getValueBS(pos, nbits, sizeBS, taquinBS)`
unfoldable pub get_value : ℕ → ℕ → ℕ → ℕ → Result ℕ
unfolding get_loop
get_value p nbits size b = get_loop nbits (size - p * nbits) b 0

-- The loop of `setValueBS`, which stops at a negative index.
unfoldable pub set_loop : ℕ → ℕ → ℕ → ℤ → ℕ
set_loop zero r b value = b
set_loop (suc k) r b value =
    let rest = set_loop k (r - 1) (set_bit (r - 1) (int_bit k value) b) value in
    if r == 0 then b else rest

-- `setValueBS(pos, nbits, sizeBS, taquinBS, value)`
unfoldable pub set_value : ℕ → ℕ → ℕ → ℕ → ℤ → ℕ
unfolding set_loop
set_value p nbits size b value = set_loop nbits (size - p * nbits) b value
