-- ===== src/Solver/Text/RoundTrip.antt =====
-- A board printed and read again.
use taquin_client_project.Base.{
  ℕ, zero, suc, ◌+◌, ◌*◌, ◌^◌, ◌<◌, ◌≤◌, ◌≡◌, ◌∙◌, refl, ap, sym, arith, Bytes, to_string,
  to_string_pos, to_string-Digits, ℤ, pos, Option, some, List, [], ◌∷◌, ◌++◌, append-nil,
  append_assoc, inl, inr, Bool-cases, ◌==◌,
}
use native.Mathlib.Nat.{suc-mul, one-le-mul, one-le-pow, pow-le-pow_right}
use taquin_client_project.Result.{ok}
use taquin_client_project.Solver.Bits.{set_value}
use taquin_client_project.Solver.Board.Cells.{
  cell, cell_lt, get_value-cell, set_value_lt, cell-set_value, cell-set_value_other, eq_of_cells,
}
use taquin_client_project.Solver.Text.{
  row_text, rows_text, trim_start, trim_end, bit_set_to_string, split, convert_loop,
  convert_to_bit_set,
}
use taquin_client_project.Solver.Text.Words.{AllWords, joined, joined-append, split-trim}

module _ (c k b : ℕ) where
  -- The texts of m cells from cell p on.
  words : ℕ → ℕ → List Bytes
  words p zero = []
  words p (suc m) = to_string (cell c k b p) ∷ words (suc p) m

  words-AllWords : (p m : ℕ) → AllWords (words p m)
  unfolding words
  words-AllWords p zero = tt
  words-AllWords p (suc m) =
      ((to_string_pos (cell c k b p), to_string-Digits (cell c k b p)), words-AllWords (suc p) m)

  split-words : (m : ℕ) → 0 < m → split (trim_end (trim_start (joined (words 0 m)))) ≡ words 0 m
  unfolding words
  split-words zero h = absurd (omega arith)
  split-words (suc m) h =
      let (w, ws) = words-AllWords 0 (suc m) in
      split-trim (to_string (cell c k b 0)) (words 1 m) w ws

  words-append : (p m l : ℕ) → words p (m + l) ≡ words p m ++ words (p + m) l
  unfolding words
  words-append p zero l =
      let zero_add : zero + l ≡ l = omega arith in
      let add_zero : p + zero ≡ p = omega arith in rw (zero_add, add_zero) refl
  words-append p (suc m) l =
      let out : suc m + l ≡ suc (m + l) = omega arith in
      let over : p + suc m ≡ suc p + m = omega arith in
      rw (out, over) (ap (λ ws. to_string (cell c k b p) ∷ ws) (words-append (suc p) m l))

  row_text-words :
      (m p : ℕ) (row : Bytes)
      → p + m ≤ c
      → row_text k (c * k) b m p row ≡ ok (row ++ joined (words p m))
  unfolding row_text words joined
  row_text-words zero p row h = ap ok (sym (append-nil row))
  row_text-words (suc m) p row h =
      let next : p + 1 ≡ suc p = omega arith in
      rw (get_value-cell c k p b (omega arith), next)
        (row_text-words m (suc p) (row ++ b' ' ∷ to_string (cell c k b p)) (omega arith)
          ∙ ap ok (append_assoc row _ _))

  rows_text-words :
      (n r p : ℕ) (m : Bytes)
      → p + r * n ≤ c
      → rows_text n k (c * k) b r p m ≡ ok (m ++ joined (words p (r * n)))
  unfolding rows_text joined words
  rows_text-words n zero p m h =
      let no_cells : 0 * n ≡ 0 = omega arith in rw no_cells (ap ok (sym (append-nil m)))
  rows_text-words n (suc r) p m h =
      let rows : suc r * n ≡ n + r * n = omega (arith, suc-mul r n) in
      rw
        (
          row_text-words n p [] (omega (arith, rows)),
          rows,
          words-append p n (r * n),
          joined-append (words p n) (words (p + n) (r * n)),
        )
        (rows_text-words n r (p + n) (m ++ joined (words p n)) (omega (arith, rows))
          ∙ ap ok (append_assoc m _ _))

  module _ (parse_int : Bytes → Option ℤ)
      (reads : (v : ℕ) → v < 2 ^ 31 → parse_int (to_string v) ≡ some (pos v))
      (narrow : 2 ^ k ≤ 2 ^ 31) where
    -- The words from cell i on are written into a set that has the cells before.
    record IsConverted (i m a a' : ℕ) : Type 0 where
      bounded : a' < 2 ^ (c * k)
      before : (p : ℕ) → p < i → cell c k a' p ≡ cell c k a p
      written : (p : ℕ) → i ≤ p → p < i + m → cell c k a' p ≡ cell c k b p

    convert_step :
        (i a : ℕ) (ws : List Bytes)
        → convert_loop parse_int k (c * k) i a (to_string (cell c k b i) ∷ ws)
          ≡ convert_loop parse_int k
              (c * k)
              (suc i)
              (set_value i k (c * k) a (pos (cell c k b i)))
              ws
    unfolding convert_loop
    convert_step i a ws =
        let next : i + 1 ≡ suc i = omega arith in
        rw (reads (cell c k b i) (omega (arith, cell_lt c k b i)), next) refl

    convert_loop-words :
        (m i a : ℕ)
        → i + m ≤ c
        → a < 2 ^ (c * k)
        → (a' : ℕ) × (convert_loop parse_int k (c * k) i a (words i m) ≡ ok a')
          × IsConverted i m a a'
    unfolding words convert_loop
    convert_loop-words zero i a h l = (
      a,
      refl,
      record { bounded = l; before = λ p q. refl; written = λ p q r. absurd (omega arith) },
    )
    convert_loop-words (suc m) i a h l =
        let a1 : ℕ = set_value i k (c * k) a (pos (cell c k b i)) in
        let (a2, e, v) =
          convert_loop-words m (suc i) a1 (omega arith) (set_value_lt c k i a _ (omega arith) l) in
        (
          a2,
          convert_step i a (words (suc i) m) ∙ e,
          record {
            bounded = v.bounded;
            before = λ p q.
                v.before p (omega arith)
                ∙ cell-set_value_other c k i p a _ (omega arith) (omega arith) (omega arith);
            written = λ p q r. elim (Bool-cases (p == i)) [
              | inl same ↦
                  let eq : p ≡ i = ground arith in
                  rw eq (
                    v.before i (omega arith)
                    ∙ cell-set_value c k i a (cell c k b i) (omega arith) (cell_lt c k b i))
              | inr other ↦ v.written p (ground arith) (omega arith)
            ];
          },
        )

    convert-words : b < 2 ^ (c * k) → convert_loop parse_int k (c * k) 0 0 (words 0 c) ≡ ok b
    convert-words h =
        let (a, e, v) =
          convert_loop-words c 0 0 (omega arith) (one-le-pow (c * k) 2 (omega arith)) in
        e ∙ ap ok (eq_of_cells c k a b v.bounded h (λ p l. v.written p (omega arith) (omega arith)))

bit_set_to_string-words :
    (n k b : ℕ)
    → bit_set_to_string n k (n * n * k) b
      ≡ ok (trim_end (trim_start (joined (words (n * n) k b 0 (n * n)))))
unfolding bit_set_to_string
bit_set_to_string-words n k b = rw (rows_text-words (n * n) k b n n 0 [] (omega arith)) refl

convert-split :
    (parse_int : Bytes → Option ℤ) (n k b : ℕ) (s : Bytes) (ws : List Bytes)
    → split s ≡ ws
    → convert_loop parse_int k (n * n * k) 0 0 ws ≡ ok b
    → convert_to_bit_set parse_int n k (n * n * k) s ≡ ok b
unfolding convert_to_bit_set
convert-split parse_int n k b s ws e f = rw e f

-- A board of n * n cells, n at least 1, of at most 31 bits each, that `bitSetToString` prints is the one that
-- `convertToStringtTBitset` reads from the text, where `parseInt` reads what is printed of a number below 2^31.
pub convert-to_string :
    (parse_int : Bytes → Option ℤ) (n k b : ℕ)
    → ((v : ℕ) → v < 2 ^ 31 → parse_int (to_string v) ≡ some (pos v))
    → 1 ≤ n
    → k ≤ 31
    → b < 2 ^ (n * n * k)
    → (s : Bytes) × (bit_set_to_string n k (n * n * k) b ≡ ok s)
      × (convert_to_bit_set parse_int n k (n * n * k) s ≡ ok b)
convert-to_string parse_int n k b reads h l m =
    let some_cell : 1 ≤ n * n = one-le-mul h h in
    let narrow : 2 ^ k ≤ 2 ^ 31 = pow-le-pow_right (omega arith) l in
    (
      trim_end (trim_start (joined (words (n * n) k b 0 (n * n)))),
      bit_set_to_string-words n k b,
      convert-split parse_int n k b _ _ (split-words (n * n) k b (n * n) some_cell)
          (convert-words (n * n) k b parse_int reads narrow m),
    )
