-- ===== src/Solver/Graph/Sliding.antt =====
-- The two writes of `creatGraph` are a slide, and slides keep to boards and go back.
use taquin_client_project.Base.{
  ℕ, suc, ◌*◌, ◌^◌, ◌≤◌, ◌<◌, ◌≡◌, ◌≢◌, refl, ap, sym, ◌∙◌, arith, ltb, ◌==◌, Bool-cases, inl, inr,
  pos,
}
use native.Mathlib.Nat.{mul-le-mul_right, suc-mul, one-le-pow}
use taquin_client_project.Result.{ok}
use taquin_client_project.Solver.Bits.{position, set_value}
use taquin_client_project.Solver.Board.{Taquin}
use taquin_client_project.Solver.Board.Cells.{
  cell, get_value-cell, cell-set_value, cell-set_value_other, set_value_lt, cell_lt, eq_of_cells,
}
use taquin_client_project.Solver.Graph.{Node, slide}
use taquin_client_project.Solver.Graph.Slides.{Beside, at, Slide, IsBoard}

position_lt : (n i j : ℕ) → i < n → j < n → position n i j < n * n
position_lt n i j h k =
    let rows : suc i * n ≤ n * n = mul-le-mul_right n h in omega (arith, rows, suc-mul i n)

position-ne :
    (n i j i' j' : ℕ) → i < n → j < n → Beside n i j i' j' → position n i' j' ≢ position n i j
position-ne n i j i' j' h k (l, m, inl (e, f)) q =
    absurd (omega (arith, ap (λ (x : ℕ). x * n) e, suc-mul i n))
position-ne n i j i' j' h k (l, m, inr (inl (e, f))) q =
    absurd (omega (arith, ap (λ (x : ℕ). x * n) e))
position-ne n i j i' j' h k (l, m, inr (inr (inl (e, f)))) q =
    absurd (omega (arith, ap (λ (x : ℕ). x * n) e, suc-mul i' n))
position-ne n i j i' j' h k (l, m, inr (inr (inr (e, f)))) q =
    absurd (omega (arith, ap (λ (x : ℕ). x * n) e))

-- The two writes of a slide from cell q' to cell q.
module _ (c k b q q' : ℕ) where
  abbrev lifted : ℕ
  lifted = set_value q k (c * k) b (pos (cell c k b q'))

  abbrev written : ℕ
  written = set_value q' k (c * k) lifted (pos 0)

  module _ (here : q < c) (there : q' < c) (other : q' ≢ q) where
    written_lt : b < 2 ^ (c * k) → written < 2 ^ (c * k)
    written_lt h = set_value_lt c k q' lifted (pos 0) there (set_value_lt c k q b _ here h)

    cell-written_here : cell c k written q ≡ cell c k b q'
    cell-written_here =
        cell-set_value_other c k q' q lifted (pos 0) there here (λ e. other (sym e))
        ∙ cell-set_value c k q b (cell c k b q') here (cell_lt c k b q')

    cell-written_there : cell c k written q' ≡ 0
    cell-written_there = cell-set_value c k q' lifted 0 there (one-le-pow k 2 (omega arith))

    cell-written_other : (p : ℕ) → p < c → p ≢ q → p ≢ q' → cell c k written p ≡ cell c k b p
    cell-written_other p h l m =
        cell-set_value_other c k q' p lifted (pos 0) there h m
        ∙ cell-set_value_other c k q p b _ here h l

module _ (t : Taquin) (size : t.size_bs ≡ t.n * t.n * t.nbits) where
  slide-written :
      (b i j i' j' : ℕ)
      → position t.n i' j' < t.n * t.n
      → slide t b i j i' j'
        ≡ ok (written (t.n * t.n) t.nbits b (position t.n i j) (position t.n i' j'))
  unfolding slide
  slide-written b i j i' j' h =
      rw (size, get_value-cell (t.n * t.n) t.nbits (position t.n i' j') b h) refl

  -- The code makes a slide.
  pub slide-Slide :
      (a : Node) (i j : ℕ)
      → a.i_puzzle < t.n
      → a.j_puzzle < t.n
      → a.taquin_bs < 2 ^ t.size_bs
      → Beside t.n a.i_puzzle a.j_puzzle i j
      → (b : ℕ) × (slide t a.taquin_bs a.i_puzzle a.j_puzzle i j ≡ ok b)
        × Slide t a (record { taquin_bs = b; i_puzzle = i; j_puzzle = j })
  slide-Slide a i j h k bound by =
      let here = position_lt t.n a.i_puzzle a.j_puzzle h k in
      let there = position_lt t.n i j by.0 by.1 in
      let other = position-ne t.n a.i_puzzle a.j_puzzle i j h k by in
      let c : ℕ = t.n * t.n in
      let q : ℕ = position t.n a.i_puzzle a.j_puzzle in
      let q' : ℕ = position t.n i j in
      (
        written c t.nbits a.taquin_bs q q',
        slide-written a.taquin_bs a.i_puzzle a.j_puzzle i j there,
        record {
          beside = by;
          bounded =
              rw size (written_lt c t.nbits a.taquin_bs q q' here there other (rw size at bound));
          moved = cell-written_here c t.nbits a.taquin_bs q q' here there other;
          emptied = cell-written_there c t.nbits a.taquin_bs q q' here there other;
          kept = cell-written_other c t.nbits a.taquin_bs q q' here there other;
        },
      )

  same_place :
      (b c : Node)
      → b.i_puzzle ≡ c.i_puzzle
      → b.j_puzzle ≡ c.j_puzzle
      → position t.n b.i_puzzle b.j_puzzle ≡ position t.n c.i_puzzle c.j_puzzle
  same_place b c e f = rw (e, f) refl

  -- A slide leads to one board only.
  pub slides_agree :
      (a b c : Node)
      → Slide t a b
      → Slide t a c
      → b.i_puzzle ≡ c.i_puzzle
      → b.j_puzzle ≡ c.j_puzzle
      → b.taquin_bs ≡ c.taquin_bs
  slides_agree a b c s r e f =
      eq_of_cells (t.n * t.n) t.nbits b.taquin_bs c.taquin_bs (rw size at s.bounded)
        (rw size at r.bounded) cells
    where
      cells :
          (p : ℕ)
          → p < t.n * t.n
          → cell (t.n * t.n) t.nbits b.taquin_bs p ≡ cell (t.n * t.n) t.nbits c.taquin_bs p
      cells p l =
          let same = same_place b c e f in
          elim (Bool-cases (p == position t.n a.i_puzzle a.j_puzzle)) [
            | inl here ↦
                let is : p ≡ position t.n a.i_puzzle a.j_puzzle = ground arith in
                rw is (s.moved ∙ ap (cell (t.n * t.n) t.nbits a.taquin_bs) same ∙ sym r.moved)
            | inr away ↦ elim (Bool-cases (p == position t.n b.i_puzzle b.j_puzzle)) [
              | inl there ↦
                  let is : p ≡ position t.n b.i_puzzle b.j_puzzle = ground arith in
                  let in_b : cell (t.n * t.n) t.nbits b.taquin_bs p ≡ 0 = rw is s.emptied in
                  let in_c : cell (t.n * t.n) t.nbits c.taquin_bs p ≡ 0 = rw (is, same) r.emptied in
                  in_b ∙ sym in_c
              | inr apart ↦
                  s.kept p l (ground arith) (ground arith)
                  ∙ sym (r.kept p l (ground arith) (ground (arith, same)))
            ]
          ]

  pub Slide-IsBoard : (a b : Node) → Slide t a b → IsBoard t a → IsBoard t b
  Slide-IsBoard a b s v = record {
    row = s.beside.0;
    column = s.beside.1;
    bounded = s.bounded;
    blank = s.emptied;
    only = λ p l z. elim (Bool-cases (p == position t.n b.i_puzzle b.j_puzzle)) [
      | inl there ↦ ground arith
      | inr apart ↦ elim (Bool-cases (p == position t.n a.i_puzzle a.j_puzzle)) [
        | inl here ↦
            let is : p ≡ position t.n a.i_puzzle a.j_puzzle = ground arith in
            absurd (
              position-ne t.n a.i_puzzle a.j_puzzle b.i_puzzle b.j_puzzle v.row v.column s.beside (
                v.only _ (position_lt t.n b.i_puzzle b.j_puzzle s.beside.0 s.beside.1)
                  (sym s.moved ∙ (rw is at z))))
        | inr away ↦
            absurd (ground (arith, v.only p l (sym (s.kept p l (ground arith) (ground arith)) ∙ z)))
      ]
    ];
  }

-- A place is told by its position.
place_unique :
    (n i j i' j' : ℕ) → j < n → j' < n → position n i j ≡ position n i' j' → (i ≡ i') × (j ≡ j')
place_unique n i j i' j' h k e = elim (Bool-cases (ltb i i')) [
  | inl less ↦
      let rows : suc i * n ≤ i' * n = mul-le-mul_right n (ground arith) in
      absurd (omega (arith, rows, suc-mul i n))
  | inr most ↦ elim (Bool-cases (ltb i' i)) [
    | inl more ↦
        let rows : suc i' * n ≤ i * n = mul-le-mul_right n (ground arith) in
        absurd (omega (arith, rows, suc-mul i' n))
    | inr least ↦
        let same : i ≡ i' = ground arith in (same, omega (arith, ap (λ (x : ℕ). x * n) same))
  ]
]

-- Boards with the same cells are the same, since the blank tells its place.
pub nodes_agree :
    (t : Taquin) (a b : Node) → IsBoard t a → IsBoard t b → a.taquin_bs ≡ b.taquin_bs → a ≡ b
nodes_agree t a b v w e =
    let zero_there : at t b.taquin_bs a.i_puzzle a.j_puzzle ≡ 0 = rw e at v.blank in
    let place : position t.n a.i_puzzle a.j_puzzle ≡ position t.n b.i_puzzle b.j_puzzle =
      w.only _ (position_lt t.n a.i_puzzle a.j_puzzle v.row v.column) zero_there in
    let (row, column) =
      place_unique t.n a.i_puzzle a.j_puzzle b.i_puzzle b.j_puzzle v.column w.column place in
    λ i. record { taquin_bs = e i; i_puzzle = row i; j_puzzle = column i }

-- A slide can be taken back.
pub slides_back : (t : Taquin) (a b : Node) → IsBoard t a → Slide t a b → Slide t b a
slides_back t a b v s = record {
  beside = (v.row, v.column, ground (arith, s.beside));
  bounded = v.bounded;
  moved = sym s.moved;
  emptied = v.blank;
  kept = λ p l m o. sym (s.kept p l o m);
}
