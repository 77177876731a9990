-- ===== src/Solver/Player/Route.antt =====
-- The answers of the player lead to the solved board.
use taquin_client_project.Base.{
  ℕ, zero, suc, ◌+◌, ◌*◌, ◌<◌, ◌≤◌, ◌≡◌, ◌∙◌, refl, ap, sym, subst, arith, Bytes, to_string, ℤ,
  Option, some, List, [], ◌∷◌, ◌++◌, length, get_elem?,
}
use mathlib.Core.Option
use taquin_client_project.Result.{Result, ok}
use taquin_client_project.Solver.Graph.{Node, find_id}
use taquin_client_project.Solver.Graph.Slides.{Slide}
use taquin_client_project.Solver.Graph.Sliding.{slides_back}
use taquin_client_project.Solver.Graph.Offer.{Reach-IsBoard}
use taquin_client_project.Solver.Graph.Store.{get_ok, get_elem?_lt}
use taquin_client_project.Solver.Graph.Valid.{solved, Stored}
use taquin_client_project.Solver.Graph.Complete.{IsSolved-IsBoard}
use taquin_client_project.Solver.Text.{convert_to_bit_set}
use taquin_client_project.Solver.Player.Fewest.{Route, home, onward}
use taquin_client_project.Solver.Player.Constructor.{IsPuzzle}
use taquin_client_project.Solver.Player.{
  Puzzle, Player, get_puzzle, place_text, read_id, solve_taquin, solve_next_step,
}

-- What the player sends for a board that it comes to in step k.
abbrev pub step_text : ℕ → Node → Bytes
step_text k b = to_string k ++ b' ' ∷ to_string b.i_puzzle ++ b' ' ∷ to_string b.j_puzzle

-- The answers for some boards, from step k + 1 on.
unfoldable pub answers : ℕ → List Node → List (Result Bytes)
answers k [] = []
answers k (b ∷ bs) = ok (step_text (k + 1) b) ∷ answers (k + 1) bs

-- The answers to m acknowledgements.
unfoldable pub next_answers : ℕ → Player → List (Result Bytes)
unfolding solve_next_step
next_answers zero p = []
next_answers (suc m) p = (solve_next_step p).1 ∷ next_answers m (solve_next_step p).0

-- The answers to a board and m acknowledgements.
unfoldable pub solve_answers : (Bytes → Option ℤ) → ℕ → Bytes → Player → List (Result Bytes)
unfolding solve_taquin next_answers
solve_answers parse_int m matriz p =
    (solve_taquin parse_int matriz p).1 ∷ next_answers m (solve_taquin parse_int matriz p).0

module _ (n : ℕ) (some_cell : 1 ≤ n) (z : Puzzle) (dist : ℕ → ℕ) (v : IsPuzzle n z dist) where
  to_parent :
      (id d : ℕ) (a : Node)
      → Stored z.graph id a
      → dist id ≡ suc d
      → (q : ℕ) × (b : Node) × (get_elem? z.paths.parents id ≡ some q)
        × Stored z.graph q b
        × Slide z.taquin a b
        × (dist q ≡ d)
  to_parent zero d a s e = absurd (omega (arith, e, v.shortest.root.0))
  to_parent (suc id) d a s e =
      let here : suc id < length z.graph.graph =
        omega (arith, v.explored.valid.lists, get_elem?_lt z.graph.reverse_ids (suc id) a s) in
      let (q, parent, edge, down) = v.shortest.down (suc id) (omega arith) here in
      let (b, a', at_q, at_id, slide) = v.explored.valid.edges q (suc id) edge in
      let same : a' ≡ a = Option.some-injective a' a (sym at_id ∙ s) in
      let start = IsSolved-IsBoard n z.taquin some_cell v.board in
      let size : z.taquin.size_bs ≡ z.taquin.n * z.taquin.n * z.taquin.nbits =
        rw v.board.side v.board.size in
      let board = Reach-IsBoard z.taquin start size b (v.explored.valid.reached q b at_q) in
      (
        q,
        b,
        parent,
        at_q,
        slides_back z.taquin b a board (subst (Slide z.taquin b) same slide),
        omega (arith, down, e),
      )

  at_home : (id : ℕ) (a : Node) → Stored z.graph id a → dist id ≡ 0 → a ≡ solved z.taquin
  at_home zero a s e = Option.some-injective a (solved z.taquin) (sym s ∙ v.explored.first)
  at_home (suc id) a s e =
      let here : suc id < length z.graph.graph =
        omega (arith, v.explored.valid.lists, get_elem?_lt z.graph.reverse_ids (suc id) a s) in
      let (q, parent, edge, down) = v.shortest.down (suc id) (omega arith) here in
      absurd (omega (arith, e, down))

  module _ (graphs : List Puzzle) (size : ℤ) (in_use : get_puzzle graphs size ≡ ok z) where
    abbrev at_id : ℕ → ℕ → Player
    at_id k id = record { step = k; graphs = graphs; size = size; id = id }

    place_text-Stored :
        (k id : ℕ) (b : Node) → Stored z.graph id b → place_text (at_id k id) ≡ ok (step_text k b)
    unfolding place_text
    place_text-Stored k id b s = rw (in_use, get_ok z.graph.reverse_ids id b s) refl

    solve_next_step-parent :
        (k id q : ℕ) (b : Node)
        → get_elem? z.paths.parents id ≡ some q
        → Stored z.graph q b
        → solve_next_step (at_id k id) ≡ (at_id (k + 1) q, ok (step_text (k + 1) b))
    unfolding solve_next_step
    solve_next_step-parent k id q b parent s =
        rw (in_use, solve_next_step)
          (rw (get_ok z.paths.parents id q parent, solve_next_step)
            (ap (λ r. (at_id (k + 1) q, r)) (place_text-Stored (k + 1) q b s)))

    pub next_answers-Route :
        (d k id : ℕ) (a : Node)
        → Stored z.graph id a
        → dist id ≡ d
        → (bs : List Node) × Route z.taquin a bs
          × (length bs ≡ d)
          × (next_answers d (at_id k id) ≡ answers k bs)
    unfolding next_answers answers
    next_answers-Route zero k id a s e =
        ([], subst (λ x. Route z.taquin x []) (sym (at_home id a s e)) home, refl, refl)
    next_answers-Route (suc d) k id a s e =
        let (q, b, parent, at_q, slide, nearer) = to_parent id d a s e in
        let (bs, route, count, same) = next_answers-Route d (k + 1) q b at_q nearer in
        let one = solve_next_step-parent k id q b parent at_q in
        (
          b ∷ bs,
          onward a b bs slide route,
          ap suc count,
          ap (λ r. r.1 ∷ next_answers d r.0) one ∙ ap (λ l. ok (step_text (k + 1) b) ∷ l) same,
        )

    -- The first answer is that to an acknowledgement in step 0.
    solve_taquin-parent :
        (parse_int : Bytes → Option ℤ) (matriz : Bytes) (k other id q : ℕ) (b : Node)
        → read_id parse_int matriz (at_id 1 other) ≡ ok id
        → get_elem? z.paths.parents id ≡ some q
        → Stored z.graph q b
        → solve_taquin parse_int matriz (at_id k other) ≡ (at_id 1 q, ok (step_text 1 b))
    unfolding solve_taquin
    solve_taquin-parent parse_int matriz k other id q b read parent s =
        rw (read, solve_taquin)
          (rw (in_use, solve_taquin)
            (rw (get_ok z.paths.parents id q parent, solve_taquin)
              (ap (λ r. (at_id 1 q, r)) (place_text-Stored 1 q b s))))

    pub solve_answers-Route_from :
        (parse_int : Bytes → Option ℤ) (matriz : Bytes) (k other id d : ℕ) (a : Node)
        → read_id parse_int matriz (at_id 1 other) ≡ ok id
        → Stored z.graph id a
        → dist id ≡ suc d
        → (bs : List Node) × Route z.taquin a bs
          × (length bs ≡ suc d)
          × (solve_answers parse_int d matriz (at_id k other) ≡ answers 0 bs)
    unfolding solve_answers answers
    solve_answers-Route_from parse_int matriz k other id d a read s e =
        let (q, b, parent, at_q, slide, nearer) = to_parent id d a s e in
        let (bs, route, count, same) = next_answers-Route d 1 q b at_q nearer in
        let one = solve_taquin-parent parse_int matriz k other id q b read parent at_q in
        (
          b ∷ bs,
          onward a b bs slide route,
          ap suc count,
          ap (λ r. r.1 ∷ next_answers d r.0) one ∙ ap (λ l. ok (step_text 1 b) ∷ l) same,
        )

    pub read_id-found :
        (parse_int : Bytes → Option ℤ) (matriz : Bytes) (other id b : ℕ)
        → convert_to_bit_set parse_int z.taquin.n z.taquin.nbits z.taquin.size_bs matriz ≡ ok b
        → find_id z.graph.ids b ≡ some id
        → read_id parse_int matriz (at_id 1 other) ≡ ok id
    unfolding read_id
    read_id-found parse_int matriz other id b e f =
        rw (in_use, read_id) (rw (e, read_id) (rw f refl))
