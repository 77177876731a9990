-- ===== src/Solver/Text.antt =====
-- solve/Utils.java: a board as the text of its cells, and back. `Integer.parseInt` is the parameter
-- `parse_int`, which answers `none` where it throws.
pub mod Words
pub mod RoundTrip
use taquin_client_project.Base.{
  ℕ, zero, suc, ◌+◌, Bytes, to_string, ℤ, leb, ◌==◌, ◌&&◌, Bool, true, false, if◌then◌else◌, Option,
  none, some, List, [], ◌∷◌, ◌++◌,
}
use taquin_client_project.Result.{Result, ok, err, bad_cast, ◌>>=◌}
use taquin_client_project.Solver.Bits.{get_value, set_value}

-- The loop over j, with m cells of the row left and k the next cell.
unfoldable pub row_text : ℕ → ℕ → ℕ → ℕ → ℕ → Bytes → Result Bytes
unfolding get_value to_string
row_text nbits size b zero k row = ok row
row_text nbits size b (suc m) k row =
    get_value k nbits size b >>= λ v. row_text nbits size b m (k + 1) (row ++ b' ' ∷ to_string v)

-- The loop over i, with r rows left and k the next cell.
unfoldable pub rows_text : ℕ → ℕ → ℕ → ℕ → ℕ → ℕ → Bytes → Result Bytes
unfolding row_text
rows_text n nbits size b zero k m = ok m
rows_text n nbits size b (suc r) k m =
    row_text nbits size b n k [] >>= λ row. rows_text n nbits size b r (k + n) (m ++ row)

-- `trim`, which takes the bytes up to the space off both ends.
unfoldable pub trim_start : Bytes → Bytes
trim_start [] = []
trim_start (c ∷ s) = let rest = trim_start s in if leb c b' ' then rest else c ∷ s

abbrev pub is_empty {ℓ} : {A : Type ℓ} → List A → Bool
is_empty [] = true
is_empty (x ∷ xs) = false

unfoldable pub trim_end : Bytes → Bytes
trim_end [] = []
trim_end (c ∷ s) = let rest = trim_end s in if leb c b' ' && is_empty rest then [] else c ∷ rest

unfoldable pub bit_set_to_string : ℕ → ℕ → ℕ → ℕ → Result Bytes
unfolding rows_text trim_start trim_end
bit_set_to_string n nbits size b =
    rows_text n nbits size b n 0 [] >>= λ m. ok (trim_end (trim_start m))

-- The parts of a text between its spaces.
abbrev onto_first : ℕ → List Bytes → List Bytes
onto_first c [] = (c ∷ []) ∷ []
onto_first c (w ∷ ws) = (c ∷ w) ∷ ws

unfoldable pub pieces : Bytes → List Bytes
pieces [] = [] ∷ []
pieces (c ∷ s) = let rest = pieces s in if c == b' ' then [] ∷ rest else onto_first c rest

unfoldable pub drop_empty : List Bytes → List Bytes
drop_empty [] = []
drop_empty (w ∷ ws) =
    let rest = drop_empty ws in if is_empty w && is_empty rest then [] else w ∷ rest

-- `split(" ")`: without the empty parts at the end, but with the whole of a text without a space.
unfoldable pub split : Bytes → List Bytes
unfolding pieces drop_empty
split [] = [] ∷ []
split (c ∷ s) = drop_empty (pieces (c ∷ s))

abbrev pub number : Option ℤ → Result ℤ
number none = err bad_cast
number (some v) = ok v

-- The loop over the parts, with i the next cell.
unfoldable pub convert_loop : (Bytes → Option ℤ) → ℕ → ℕ → ℕ → ℕ → List Bytes → Result ℕ
unfolding set_value
convert_loop parse_int nbits size i b [] = ok b
convert_loop parse_int nbits size i b (c ∷ cs) = number (parse_int c) >>= λ v.
    convert_loop parse_int nbits size (i + 1) (set_value i nbits size b v) cs

unfoldable pub convert_to_bit_set : (Bytes → Option ℤ) → ℕ → ℕ → ℕ → Bytes → Result ℕ
unfolding split convert_loop
convert_to_bit_set parse_int n nbits size taquin =
    convert_loop parse_int nbits size 0 0 (split taquin)
