-- ===== src/Solver/Graph/Search.antt =====
-- The rounds of the search.
use taquin_client_project.Base.{
  ℕ, ◌*◌, ◌≡◌, ◌⊎◌, refl, ap, sym, subst, ◌∙◌, arith, Option-cases, inl, inr, Option, none, some,
  List, [], ◌∷◌, ℤ,
}
use mathlib.Core.Option
use mathlib.Core.List.{Memᴰ}
use mathlib.Core.List.Memᴰ
use taquin_client_project.Result.{ok}
use taquin_client_project.Solver.Board.{Taquin}
use taquin_client_project.Solver.Graph.{
  Node, Triple, Graph, deltas, target, try_move, visit, offer, slide,
}
use taquin_client_project.Solver.Graph.Slides.{Slide, IsBoard, Beside-target, target-Beside}
use taquin_client_project.Solver.Graph.Sliding.{slide-Slide, slides_agree}
use taquin_client_project.Solver.Graph.Store.{get_ok}
use taquin_client_project.Solver.Graph.Valid.{
  solved, Stored, IsGraph, Queued, Matches, Grows, growth_refl, growth_trans,
}
use taquin_client_project.Solver.Graph.Offer.{Reach-IsBoard, offer-Grows}

abbrev pub Known : Graph → Node → Type 0
Known g b = (id : ℕ) × Stored g id b

-- Every board one slide away is stored.
abbrev pub Closed : Taquin → Graph → Node → Type 0
Closed t g a = (b : Node) → Slide t a b → Known g b

-- Every board that a slide in the direction d leads to is stored.
abbrev pub Tried : Taquin → Graph → Node → ℤ × ℤ → Type 0
Tried t g a d =
    (b : Node)
    → target t.n a.i_puzzle a.j_puzzle d ≡ some (b.i_puzzle, b.j_puzzle)
    → Slide t a b
    → Known g b

pairs :
    {o : Option (ℕ × ℕ)} {i j i' j' : ℕ} → o ≡ some (i, j) → o ≡ some (i', j') → (i ≡ i') × (j ≡ j')
pairs e f =
    let same = Option.some-injective _ _ (sym e ∙ f) in (ap (λ p. p.0) same, ap (λ p. p.1) same)

module _ (t : Taquin) (start : IsBoard t (solved t)) (size : t.size_bs ≡ t.n * t.n * t.nbits) where
  -- A direction that leaves the board.
  try_move-none :
      (g : Graph) (queue : List Triple) (x : Triple) (d : ℤ × ℤ)
      → target t.n x.second x.third d ≡ none
      → try_move t x d (g, queue) ≡ ok (g, queue)
  unfolding try_move
  try_move-none g queue x d e = rw (e, try_move) refl

  try_move-some :
      (g g' : Graph) (queue queue' : List Triple) (x : Triple) (d : ℤ × ℤ) (a b : Node)
      → target t.n x.second x.third d ≡ some (b.i_puzzle, b.j_puzzle)
      → Stored g x.first a
      → slide t a.taquin_bs x.second x.third b.i_puzzle b.j_puzzle ≡ ok b.taquin_bs
      → offer x.first b.taquin_bs b.i_puzzle b.j_puzzle (g, queue) ≡ ok (g', queue')
      → try_move t x d (g, queue) ≡ ok (g', queue')
  unfolding try_move
  try_move-some g g' queue queue' x d a b e s made offered =
      rw (e, try_move) (rw (get_ok g.reverse_ids x.first a s, made) offered)

  -- Slides to the same place are to the same board.
  only :
      (a b c : Node)
      → Slide t a b
      → Slide t a c
      → (b.i_puzzle ≡ c.i_puzzle) × (b.j_puzzle ≡ c.j_puzzle)
      → b ≡ c
  only a b c s r (row, column) =
      let board = slides_agree t size a b c s r row column in
      λ i. record { taquin_bs = board i; i_puzzle = row i; j_puzzle = column i }

  module _ (a : Node) (x : Triple) (row : a.i_puzzle ≡ x.second)
      (column : a.j_puzzle ≡ x.third) where
    try_move-Grows :
        (g : Graph) (queue : List Triple) (d : ℤ × ℤ)
        → Memᴰ d deltas
        → IsGraph t g
        → Stored g x.first a
        → (g' : Graph) × (queue' : List Triple) × (try_move t x d (g, queue) ≡ ok (g', queue'))
          × Grows t x.first g queue g' queue'
          × Tried t g' a d
    try_move-Grows g queue d m v s = elim (Option-cases (target t.n a.i_puzzle a.j_puzzle d)) [
      | inl e ↦ (
        g,
        queue,
        try_move-none g queue x d (rw (row, column) at e),
        growth_refl t x.first g queue v,
        λ b q r. absurd (ground (arith, q, e)),
      )
      | inr ((i, j), e) ↦
          let w : IsBoard t a = Reach-IsBoard t start size a (v.reached x.first a s) in
          let by = target-Beside t.n a.i_puzzle a.j_puzzle i j d w.row w.column m e in
          let (b, made, sl) = slide-Slide t size a i j w.row w.column w.bounded by in
          let nb : Node = record { taquin_bs = b; i_puzzle = i; j_puzzle = j } in
          let (g', queue', offered, grows, id, stored) =
            offer-Grows t start size g queue x.first a nb v s sl in
          (
            g',
            queue',
            try_move-some g g' queue queue' x d a nb (rw (row, column) at e) s
                (rw (row, column) at made) offered,
            grows,
            λ c q r. (id, subst (Stored g' id) (only a nb c sl r (pairs e q)) stored),
          )
    ]

    pub visit-Grows :
        (ds : List (ℤ × ℤ)) (g : Graph) (queue : List Triple)
        → ((d : ℤ × ℤ) → Memᴰ d ds → Memᴰ d deltas)
        → IsGraph t g
        → Stored g x.first a
        → (g' : Graph) × (queue' : List Triple) × (visit t x ds (g, queue) ≡ ok (g', queue'))
          × Grows t x.first g queue g' queue'
          × ((d : ℤ × ℤ) → Memᴰ d ds → Tried t g' a d)
    unfolding visit
    visit-Grows [] g queue sub v s =
        (g, queue, refl, growth_refl t x.first g queue v, λ d m. absurd (Memᴰ.not-nil m))
    visit-Grows (d ∷ ds) g queue sub v s =
        let (g1, q1, made, grows, tried) = try_move-Grows g queue d (sub d (Memᴰ.head refl)) v s in
        let (g2, q2, made', grows', tried') =
          visit-Grows ds g1 q1 (λ c m. sub c (Memᴰ.tail m)) grows.valid (grows.kept x.first a s) in
        (
          g2,
          q2,
          rw made made',
          growth_trans t x.first g g1 g2 queue q1 q2 grows grows',
          λ c m. later c (Memᴰ.cases_cons m) g1 g2 q1 q2 grows' tried tried',
        )
      where
        later :
            (c : ℤ × ℤ)
            → (c ≡ d) ⊎ Memᴰ c ds
            → (g1 g2 : Graph) (q1 q2 : List Triple) → Grows t x.first g1 q1 g2 q2
            → Tried t g1 a d
            → ((d : ℤ × ℤ) → Memᴰ d ds → Tried t g2 a d)
            → Tried t g2 a c
        later c (inr m) g1 g2 q1 q2 grows one all = all c m
        later c (inl e) g1 g2 q1 q2 grows one all =
            λ b q r. let (id, s) = one b (rw e at q) r in (id, grows.kept id b s)

    -- All four directions close a board.
    pub visit-Closed : (g : Graph) → ((d : ℤ × ℤ) → Memᴰ d deltas → Tried t g a d) → Closed t g a
    visit-Closed g tried b s =
        let (d, m, e) = Beside-target t.n a.i_puzzle a.j_puzzle b.i_puzzle b.j_puzzle s.beside in
        tried d m b e s

  -- Between the rounds a stored board waits in the queue or is closed.
  pub record IsSearched (g : Graph) (queue : List Triple) : Type 0 where
    pub valid : IsGraph t g
    pub matching : (x : Triple) → Memᴰ x queue → Matches g x
    pub closed : (id : ℕ) (a : Node) → Stored g id a → Queued id queue ⊎ Closed t g a

  Closed-Grows :
      (cur : ℕ) (g g' : Graph) (q q' : List Triple) (a : Node)
      → Grows t cur g q g' q'
      → Closed t g a
      → Closed t g' a
  Closed-Grows cur g g' q q' a grows c b s = let (id, m) = c b s in (id, grows.kept id b m)

  pub visit-IsSearched :
      (g g' : Graph) (x : Triple) (queue queue' : List Triple) (a : Node)
      → IsSearched g (x ∷ queue)
      → Stored g x.first a
      → Grows t x.first g queue g' queue'
      → Closed t g' a
      → IsSearched g' queue'
  visit-IsSearched g g' x queue queue' a h s grows c = record {
    valid = grows.valid;
    matching = grows.matching (λ y m. h.matching y (Memᴰ.tail m));
    closed = λ id b m. elim (grows.queued id b m) [
      | inr new ↦ inl new
      | inl old ↦ elim (h.closed id b old) [
        | inr done ↦ inr (Closed-Grows x.first g g' queue queue' b grows done)
        | inl (y, waits, e) ↦ elim (Memᴰ.cases_cons waits) [
          | inl first ↦
              let same : some a ≡ some b = sym s ∙ (rw (← first, e) old) in
              inr (subst (Closed t g') (Option.some-injective a b same) c)
          | inr later ↦ inl (grows.waiting id (y, later, e))
        ]
      ]
    ];
  }
