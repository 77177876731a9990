-- ===== src/Tests/Puzzle.antt =====
-- Boards of 2 * 2 and 300 * 300 cells.
use taquin_client_project.Base.{◌≡◌, arith, none, some}
use taquin_client_project.Result.{ok}
use taquin_client_project.Solver.Board.{Taquin, n_bits, new_taquin}
use taquin_client_project.Solver.Board.Width.{n_bits_endless}
use taquin_client_project.Solver.Board.Solved.{IsSolved, new_taquin-IsSolved}
use taquin_client_project.Solver.Graph.{Graph}

new_taquin-IsSolved_example : (t : Taquin) × (new_taquin 17 3 ≡ some (ok t)) × IsSolved 3 t
new_taquin-IsSolved_example = new_taquin-IsSolved 3 (omega arith) (omega arith)

n_bits_endless_example : n_bits 20 0 300 ≡ none
n_bits_endless_example = n_bits_endless 20 0 300 (omega arith) (omega arith)
