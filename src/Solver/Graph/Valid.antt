-- ===== src/Solver/Graph/Valid.antt =====
-- What the lists and the map of the graph keep to, whatever is offered.
use taquin_client_project.Base.{
  ℕ, suc, ◌+◌, ◌^◌, ◌≤◌, ◌≡◌, ◌⊎◌, arith, inl, inr, some, List, length, get_elem?,
}
use mathlib.Core.List.{Memᴰ}
use taquin_client_project.Solver.Board.{Taquin}
use taquin_client_project.Solver.Graph.{Node, Triple, Graph, find_id}
use taquin_client_project.Solver.Graph.Slides.{Slide}
use taquin_client_project.Solver.Graph.Store.{unseen}
use taquin_client_project.Solver.Graph.Edges.{Links, Connected, Parent, IsOrdered}

-- The board of the constructor, with its blank.
abbrev pub solved : Taquin → Node
solved t = record { taquin_bs = t.taquin_bs; i_puzzle = t.i_puzzle; j_puzzle = t.j_puzzle }

-- The boards that slides lead to.
pub data Reach (t : Taquin) : Node → Type 0 where
  here : Reach t (solved t)
  move : (a b : Node) → Reach t a → Slide t a b → Reach t b

abbrev pub Stored : Graph → ℕ → Node → Type 0
Stored g id a = get_elem? g.reverse_ids id ≡ some a

-- Two ids of boards that a slide joins, either way.
abbrev pub Joined : Taquin → List Node → ℕ → ℕ → Type 0
Joined t nodes k o =
    (a b : Node) × (get_elem? nodes k ≡ some a) × (get_elem? nodes o ≡ some b) × Slide t a b

-- The map is the inverse of the list, every stored board can be reached, and an edge is a slide.
pub record IsGraph (t : Taquin) (g : Graph) : Type 0 where
  pub by_id : (id : ℕ) (a : Node) → Stored g id a → find_id g.ids a.taquin_bs ≡ some id
  pub by_board :
      (b id : ℕ) → find_id g.ids b ≡ some id → (a : Node) × Stored g id a × (a.taquin_bs ≡ b)
  pub reached : (id : ℕ) (a : Node) → Stored g id a → Reach t a
  pub lists : length g.graph ≡ length g.reverse_ids
  pub edges : Links (Joined t g.reverse_ids) g.graph

abbrev pub Queued : ℕ → List Triple → Type 0
Queued id queue = (x : Triple) × Memᴰ x queue × (x.first ≡ id)

-- A triple of the queue is a stored board.
abbrev pub Matches : Graph → Triple → Type 0
Matches g x = (a : Node) × Stored g x.first a × (a.i_puzzle ≡ x.second) × (a.j_puzzle ≡ x.third)

abbrev pub work : Taquin → Graph → List Triple → ℕ
work t g queue = unseen (2 ^ t.size_bs) g.ids + length queue

-- What a part of the search leaves of a graph g and a queue.
pub record Grows (t : Taquin) (cur : ℕ) (g : Graph) (queue : List Triple) (g' : Graph)
    (queue' : List Triple) : Type 0 where
  pub valid : IsGraph t g'
  pub kept : (id : ℕ) (a : Node) → Stored g id a → Stored g' id a
  pub queued : (id : ℕ) (a : Node) → Stored g' id a → Stored g id a ⊎ Queued id queue'
  pub waiting : (id : ℕ) → Queued id queue → Queued id queue'
  pub matching :
      ((x : Triple) → Memᴰ x queue → Matches g x) → (x : Triple) → Memᴰ x queue' → Matches g' x
  pub connected : Connected g.graph → Connected g'.graph
  pub heads : (k p : ℕ) → Parent g.graph k p → Parent g'.graph k p
  pub ordered : IsOrdered g.graph queue (suc cur) → IsOrdered g'.graph queue' (suc cur)
  pub less : work t g' queue' ≤ work t g queue

pub growth_refl :
    (t : Taquin) (cur : ℕ) (g : Graph) (queue : List Triple)
    → IsGraph t g
    → Grows t cur g queue g queue
growth_refl t cur g queue v = record {
  valid = v;
  kept = λ id a s. s;
  queued = λ id a s. inl s;
  waiting = λ id q. q;
  matching = λ m. m;
  connected = λ c. c;
  heads = λ k p parent. parent;
  ordered = λ o. o;
  less = omega arith;
}

pub growth_trans :
    (t : Taquin) (cur : ℕ) (g g' g'' : Graph) (q q' q'' : List Triple)
    → Grows t cur g q g' q'
    → Grows t cur g' q' g'' q''
    → Grows t cur g q g'' q''
growth_trans t cur g g' g'' q q' q'' v w = record {
  valid = w.valid;
  kept = λ id a s. w.kept id a (v.kept id a s);
  queued = λ id a s. either id a (w.queued id a s);
  waiting = λ id s. w.waiting id (v.waiting id s);
  matching = λ m. w.matching (v.matching m);
  connected = λ c. w.connected (v.connected c);
  heads = λ k p parent. w.heads k p (v.heads k p parent);
  ordered = λ o. w.ordered (v.ordered o);
  less = omega (arith, v.less, w.less);
}
  where
    either : (id : ℕ) (a : Node) → Stored g' id a ⊎ Queued id q'' → Stored g id a ⊎ Queued id q''
    either id a (inr s) = inr s
    either id a (inl s) = elim (v.queued id a s) [ inl h ↦ inl h | inr h ↦ inr (w.waiting id h) ]
