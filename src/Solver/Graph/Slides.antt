-- ===== src/Solver/Graph/Slides.antt =====
-- What a slide is, in terms of cells, and that the code makes it.
use taquin_client_project.Base.{
  ℕ, suc, ◌*◌, ◌^◌, ◌<◌, ◌≡◌, ◌≢◌, ◌⊎◌, refl, arith, inl, inr, some, ℤ, pos, negsuc,
}
use mathlib.Core.List.{Memᴰ}
use taquin_client_project.Solver.Bits.{position}
use taquin_client_project.Solver.Board.{Taquin}
use taquin_client_project.Solver.Board.Cells.{cell}
use taquin_client_project.Solver.Graph.{Node, deltas, target}

-- One place is beside another on a board of n rows and n columns.
abbrev pub Beside : ℕ → ℕ → ℕ → ℕ → ℕ → Type 0
Beside n i j i' j' =
    (i' < n)
    × (j' < n)
    × (((i' ≡ suc i) × (j' ≡ j))
        ⊎ ((i' ≡ i) × (j' ≡ suc j))
        ⊎ ((i ≡ suc i') × (j' ≡ j))
        ⊎ ((i' ≡ i) × (j ≡ suc j')))

-- The number in row i and column j.
abbrev pub at : Taquin → ℕ → ℕ → ℕ → ℕ
at t b i j = cell (t.n * t.n) t.nbits b (position t.n i j)

-- From a to b the tile beside the blank changes places with the blank.
pub record Slide (t : Taquin) (a b : Node) : Type 0 where
  pub beside : Beside t.n a.i_puzzle a.j_puzzle b.i_puzzle b.j_puzzle
  pub bounded : b.taquin_bs < 2 ^ t.size_bs
  pub moved : at t b.taquin_bs a.i_puzzle a.j_puzzle ≡ at t a.taquin_bs b.i_puzzle b.j_puzzle
  pub emptied : at t b.taquin_bs b.i_puzzle b.j_puzzle ≡ 0
  pub kept :
      (p : ℕ)
      → p < t.n * t.n
      → p ≢ position t.n a.i_puzzle a.j_puzzle
      → p ≢ position t.n b.i_puzzle b.j_puzzle
      → cell (t.n * t.n) t.nbits b.taquin_bs p ≡ cell (t.n * t.n) t.nbits a.taquin_bs p

-- A board within its bits, with the only 0 at the place that goes with it.
pub record IsBoard (t : Taquin) (a : Node) : Type 0 where
  pub row : a.i_puzzle < t.n
  pub column : a.j_puzzle < t.n
  pub bounded : a.taquin_bs < 2 ^ t.size_bs
  pub blank : at t a.taquin_bs a.i_puzzle a.j_puzzle ≡ 0
  pub only :
      (p : ℕ)
      → p < t.n * t.n
      → cell (t.n * t.n) t.nbits a.taquin_bs p ≡ 0
      → p ≡ position t.n a.i_puzzle a.j_puzzle

pub target-Beside :
    (n i j i' j' : ℕ) (d : ℤ × ℤ)
    → i < n
    → j < n
    → Memᴰ d deltas
    → target n i j d ≡ some (i', j')
    → Beside n i j i' j'
unfolding target
target-Beside n i j i' j' d h k (Memᴰ.head q) e = let e' = rw q at e in ground arith
target-Beside n i j i' j' d h k (Memᴰ.tail (Memᴰ.head q)) e = let e' = rw q at e in ground arith
target-Beside n i j i' j' d h k (Memᴰ.tail (Memᴰ.tail (Memᴰ.head q))) e =
    let e' = rw q at e in ground arith
target-Beside n i j i' j' d h k (Memᴰ.tail (Memᴰ.tail (Memᴰ.tail (Memᴰ.head q)))) e =
    let e' = rw q at e in ground arith
target-Beside n i j i' j' d h k (Memᴰ.tail (Memᴰ.tail (Memᴰ.tail (Memᴰ.tail m)))) e = elim m [ ]

pub Beside-target :
    (n i j i' j' : ℕ)
    → Beside n i j i' j'
    → (d : ℤ × ℤ) × Memᴰ d deltas × (target n i j d ≡ some (i', j'))
unfolding target
Beside-target n i j i' j' (h, k, inl (e, f)) = ((pos 1, pos 0), Memᴰ.head refl, ground arith)
Beside-target n i j i' j' (h, k, inr (inl (e, f))) =
    ((pos 0, pos 1), Memᴰ.tail (Memᴰ.head refl), ground arith)
Beside-target n i j i' j' (h, k, inr (inr (inl (e, f)))) =
    ((negsuc 0, pos 0), Memᴰ.tail (Memᴰ.tail (Memᴰ.head refl)), ground arith)
Beside-target n i j i' j' (h, k, inr (inr (inr (e, f)))) =
    ((pos 0, negsuc 0), Memᴰ.tail (Memᴰ.tail (Memᴰ.tail (Memᴰ.head refl))), ground arith)
