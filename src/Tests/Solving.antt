-- ===== src/Tests/Solving.antt =====
-- The solver on 2 * 2 cells, with a queue that polls the first of its least triples.
use taquin_client_project.Base.{
  ℕ, zero, suc, ◌≡◌, ◌≢◌, ◌-◌, ◌^◌, ◌<◌, ap, sym, subst, refl, arith, ◌==◌, Bool-cases, false, inl,
  inr, Option, none, some, List, [], ◌∷◌, length, ℤ, pos, sub_ℕ, to_int32, Bytes, codes, to_string,
  read_decimal, read_decimal-to_string,
}
use mathlib.Core.Option
use mathlib.Core.List.{Memᴰ}
use mathlib.Core.List.Memᴰ
use taquin_client_project.Result.{ok}
use taquin_client_project.Solver.Bits.{bit, set_bit, int_bit}
use taquin_client_project.Solver.Bits.Laws.{window}
use taquin_client_project.Solver.Graph.{Node, Graph}
use taquin_client_project.Solver.Graph.Slides.{Slide}
use taquin_client_project.Solver.Graph.Edges.{Edge, Connected}
use taquin_client_project.Solver.Graph.Valid.{solved, here, move}
use taquin_client_project.Solver.Board.Cells.{cell}
use taquin_client_project.Solver.Paths.{Paths, compare, dijkstra}
use taquin_client_project.Solver.Paths.Shortest.{IsShortest, dijkstra-IsShortest}
use taquin_client_project.Solver.Text.{bit_set_to_string, convert_to_bit_set}
use taquin_client_project.Solver.Text.RoundTrip.{convert-to_string}
use taquin_client_project.Solver.Player.{Puzzle, Player, new_graph, get_taquin, solve_taquin}
use taquin_client_project.Solver.Player.Fewest.{IsFewest}
use taquin_client_project.Solver.Player.Route.{answers, solve_answers}
use taquin_client_project.Solver.Player.Solves.{solve_answers-Route}
use taquin_client_project.Tests.Polling.{poll, poll-IsPoll}

abbrev pub puzzle : Puzzle
puzzle = record {
  taquin = record {
    taquin_bs = 108;
    mask_bits = 3;
    nbits = 2;
    size_bs = 8;
    n = 2;
    i_puzzle = 1;
    j_puzzle = 1;
  };
  graph = record {
    ids =
        (57, 11)
        ∷ (177, 10)
        ∷ (201, 9)
        ∷ (180, 8)
        ∷ (216, 7)
        ∷ (135, 6)
        ∷ (210, 5)
        ∷ (39, 4)
        ∷ (30, 3)
        ∷ (99, 2)
        ∷ (78, 1)
        ∷ (108, 0)
        ∷ [];
    reverse_ids =
        record { taquin_bs = 108; i_puzzle = 1; j_puzzle = 1 }
        ∷ record { taquin_bs = 78; i_puzzle = 0; j_puzzle = 1 }
        ∷ record { taquin_bs = 99; i_puzzle = 1; j_puzzle = 0 }
        ∷ record { taquin_bs = 30; i_puzzle = 0; j_puzzle = 0 }
        ∷ record { taquin_bs = 39; i_puzzle = 0; j_puzzle = 0 }
        ∷ record { taquin_bs = 210; i_puzzle = 1; j_puzzle = 0 }
        ∷ record { taquin_bs = 135; i_puzzle = 0; j_puzzle = 1 }
        ∷ record { taquin_bs = 216; i_puzzle = 1; j_puzzle = 1 }
        ∷ record { taquin_bs = 180; i_puzzle = 1; j_puzzle = 1 }
        ∷ record { taquin_bs = 201; i_puzzle = 0; j_puzzle = 1 }
        ∷ record { taquin_bs = 177; i_puzzle = 1; j_puzzle = 0 }
        ∷ record { taquin_bs = 57; i_puzzle = 0; j_puzzle = 0 }
        ∷ [];
    graph =
        (1 ∷ 2 ∷ [])
        ∷ (0 ∷ 3 ∷ [])
        ∷ (0 ∷ 4 ∷ [])
        ∷ (1 ∷ 5 ∷ [])
        ∷ (2 ∷ 6 ∷ [])
        ∷ (3 ∷ 7 ∷ [])
        ∷ (4 ∷ 8 ∷ [])
        ∷ (5 ∷ 9 ∷ [])
        ∷ (6 ∷ 10 ∷ [])
        ∷ (7 ∷ 11 ∷ [])
        ∷ (8 ∷ [])
        ∷ (9 ∷ [])
        ∷ [];
  };
  paths = record {
    parents = 0 ∷ 0 ∷ 0 ∷ 1 ∷ 2 ∷ 3 ∷ 4 ∷ 5 ∷ 6 ∷ 7 ∷ 8 ∷ 9 ∷ [];
    marks =
        false ∷ false ∷ false ∷ false ∷ false ∷ false ∷ false ∷ false ∷ false ∷ false ∷ false
        ∷ false ∷ [];
    farthest_node = 11;
    farthest_distance = 6;
  };
}

-- The client asked for 2 * 2 cells, and the board one slide above the solved one.
abbrev pub player : Player
player = record { step = 0; graphs = puzzle ∷ []; size = pos 0; id = 0 }

abbrev board : Node
board = record { taquin_bs = 99; i_puzzle = 1; j_puzzle = 0 }

pub new_graph-puzzle : new_graph poll 2 ≡ some (ok puzzle)
unfolding new_graph poll set_bit int_bit bit compare to_int32
new_graph-puzzle = refl

solved-Slide : Slide puzzle.taquin (solved puzzle.taquin) board
unfolding cell window bit
solved-Slide = record {
  beside = (omega arith, omega arith, inr (inr (inr (refl, refl))));
  bounded = omega arith;
  moved = refl;
  emptied = refl;
  kept = kept;
}
  where
    kept : (p : ℕ) → p < 4 → p ≢ 3 → p ≢ 2 → cell 4 2 99 p ≡ cell 4 2 108 p
    kept p h k l = elim (Bool-cases (p == 0)) [
      | inl e ↦ let q : p ≡ 0 = ground arith in rw q refl
      | inr e ↦ let q : p ≡ 1 = ground (arith, k, l) in rw q refl
    ]

pub parse_int : Bytes → Option ℤ
parse_int s = Option.map pos (read_decimal s)

pub parse_int-to_string : (v : ℕ) → v < 2 ^ 31 → parse_int (to_string v) ≡ some (pos v)
unfolding parse_int
parse_int-to_string v h = ap (Option.map pos) (read_decimal-to_string v)

one_digit : Bytes → Option ℤ
one_digit (c ∷ []) = some (sub_ℕ c b'0')
one_digit _ = none

-- The board that is furthest away, and the first answer to a board.
answers_test :
    ((get_taquin (pos 2) player).1 ≡ ok (codes "0 3 2 1"))
    × ((solve_taquin one_digit (codes "1 2 0 3") player).1 ≡ ok (codes "1 1 1"))
unfolding get_taquin solve_taquin one_digit bit set_bit int_bit to_int32
answers_test = (refl, refl)

solve_answers-Route_example :
    (s : Bytes) × (bs : List Node) × (bit_set_to_string 2 2 8 99 ≡ ok s)
    × IsFewest puzzle.taquin board bs
    × (solve_answers parse_int (length bs - 1) s player ≡ answers 0 bs)
solve_answers-Route_example =
    solve_answers-Route poll parse_int 2 puzzle player board poll-IsPoll parse_int-to_string
      (omega arith) (omega arith) new_graph-puzzle refl
      (move (solved puzzle.taquin) board here solved-Slide) (λ e. absurd (omega arith))

-- Two ids that are joined.
abbrev pair : Graph
pair = record { ids = []; reverse_ids = []; graph = (1 ∷ []) ∷ (0 ∷ []) ∷ [] }

pair_inside : (k o : ℕ) → Edge pair.graph k o → o < 2
pair_inside zero o (e, s, m) =
    let last : o ≡ 1 =
      Memᴰ.eq_of_singleton (subst (Memᴰ o) (sym (Option.some-injective _ _ s)) m) in
    omega (arith, last)
pair_inside (suc zero) o (e, s, m) =
    let first : o ≡ 0 =
      Memᴰ.eq_of_singleton (subst (Memᴰ o) (sym (Option.some-injective _ _ s)) m) in
    omega (arith, first)
pair_inside (suc (suc k)) o (e, s, m) = cc

pair-Connected : Connected pair.graph
pair-Connected zero h l = absurd (omega arith)
pair-Connected (suc zero) h l = (0, omega arith, (1 ∷ [], refl, Memᴰ.head refl))
pair-Connected (suc (suc id)) h l = absurd (omega arith)

dijkstra-IsShortest_example :
    (p : Paths) × (dist : ℕ → ℕ) × (dijkstra poll 4 pair ≡ some (ok p))
    × IsShortest pair.graph p dist
dijkstra-IsShortest_example =
    dijkstra-IsShortest poll pair poll-IsPoll pair_inside (omega arith) pair-Connected

convert-to_string_example :
    (s : Bytes) × (bit_set_to_string 2 2 8 99 ≡ ok s)
    × (convert_to_bit_set parse_int 2 2 8 s ≡ ok 99)
convert-to_string_example =
    convert-to_string parse_int 2 2 99 parse_int-to_string (omega arith) (omega arith) (omega arith)
