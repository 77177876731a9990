-- ===== src/App/Bounds.antt =====
-- `step_` never leaves its array in main.cpp, whatever the server sends.
use taquin_client_project.Base.{
  ℕ, zero, suc, ◌≤◌, ◌<◌, Bytes, Bool, List, [], ◌∷◌, length, ◌≡◌, ◌≢◌, refl, arith, ltb, ◌++◌,
  codes, Bool-cases, inl, inr, bytes_eq,
}
use taquin_client_project.Result.{Result, ok, err, assertion, null_pointer, out_of_range, ◌>>=◌}
use taquin_client_project.Message.{Message, Ptr, nullptr, ptr, deref, get_map, get_string, get_int}
use taquin_client_project.Message.Objects
use taquin_client_project.App.{
  App, Effect, Event, login, new_message, start, get_matriz, solve, ack_solve, error_solve, handle,
  run, init, on_login, on_new_message, on_start, on_get_matriz, on_solve, on_ack_solve,
  on_error_solve, start_solving, next_step, entry, table, limit, string_at, int_at,
}

-- Both arrays have ten entries, and `step_` is at most the limit of the chosen one.
pub record IsReady (a : App) : Type 0 where
  pub first : length a.solve1 ≡ 10
  pub second : length a.solve2 ≡ 10
  pub within : a.step ≤ limit a

-- A call that returns leaves a ready state; one that faults does not fault by an index.
abbrev pub IsSafe : Result (App × List Effect) → Type 0
IsSafe (ok (a, did)) = IsReady a
IsSafe (err f) = f ≢ out_of_range

-- The only faults of a lookup in a message are those of a message of another shape.
abbrev pub Shape : {A : Type 0} → Result A → Type 0
Shape (ok v) = Unit {0}
Shape (err f) = f ≢ out_of_range

Shape-bind :
    {A B : Type 0} (m : Result A) (f : A → Result B)
    → Shape m
    → ((a : A) → Shape (f a))
    → Shape (m >>= f)
Shape-bind (ok a) f h k = k a
Shape-bind (err e) f h k = h

IsSafe-bind :
    {A : Type 0} (m : Result A) (f : A → Result (App × List Effect))
    → Shape m
    → ((a : A) → IsSafe (f a))
    → IsSafe (m >>= f)
IsSafe-bind (ok a) f h k = k a
IsSafe-bind (err e) f h k = h

null_pointer-ne : null_pointer ≢ out_of_range
null_pointer-ne e = cc

assertion-ne : assertion ≢ out_of_range
assertion-ne e = cc

deref-Shape : (d : Ptr) → Shape (deref d)
deref-Shape nullptr = null_pointer-ne
deref-Shape (ptr m) = tt

get_map-Shape : (m : Message) → Shape (get_map m)
get_map-Shape (Message.object fs) = tt
get_map-Shape _ = assertion-ne

get_string-Shape : (m : Message) → Shape (get_string m)
get_string-Shape (Message.string s) = tt
get_string-Shape _ = assertion-ne

get_int-Shape : (m : Message) → Shape (get_int m)
get_int-Shape (Message.integer s) = tt
get_int-Shape _ = assertion-ne

string_at-Shape : (d : Ptr) (key : Bytes) → Shape (string_at d key)
unfolding string_at
string_at-Shape d key = Shape-bind (deref d) _ (deref-Shape d) λ m.
    Shape-bind (get_map m) _ (get_map-Shape m) λ fs.
      Shape-bind (deref (Objects.at key fs)) _ (deref-Shape (Objects.at key fs)) get_string-Shape

int_at-Shape : (d : Ptr) (key : Bytes) → Shape (int_at d key)
unfolding int_at
int_at-Shape d key = Shape-bind (deref d) _ (deref-Shape d) λ m.
    Shape-bind (get_map m) _ (get_map-Shape m)
      λ fs. Shape-bind (deref (Objects.at key fs)) _ (deref-Shape (Objects.at key fs)) get_int-Shape

entry-ok : (t : List Bytes) (i : ℕ) → i < length t → (s : Bytes) × (entry t i ≡ ok s)
unfolding entry
entry-ok [] i h = elim h [ ]
entry-ok (x ∷ t) zero h = (x, refl)
entry-ok (x ∷ t) (suc i) h = entry-ok t i (ground arith)

table-entry : (a : App) (i : ℕ) → IsReady a → i < 10 → (s : Bytes) × (entry (table a) i ≡ ok s)
unfolding table
table-entry a i v h = entry-ok (table a) i (ground (arith, v.first, v.second))

start_solving-IsSafe : (a : App) (m : Bytes) → IsReady a → IsSafe (start_solving a m)
unfolding start_solving
start_solving-IsSafe a m v =
    let (s, e) = table-entry a 0 v (omega arith) in
    rw e (record { first = v.first; second = v.second; within = ground arith })

next_step-IsSafe : (a : App) → IsReady a → a.step < limit a → IsSafe (next_step a)
unfolding next_step
next_step-IsSafe a v h =
    let (s, e) = table-entry a a.step v (ground arith) in
    rw e (record { first = v.first; second = v.second; within = omega arith })

-- Every handler, on every message.
handle-IsSafe : (e : Event) (a : App) (d : Ptr) → IsReady a → IsSafe (handle e a d)
unfolding on_login on_new_message on_start on_get_matriz on_solve on_ack_solve on_error_solve
handle-IsSafe login a d v = IsSafe-bind (int_at d (codes "numUsers")) _ (int_at-Shape d _) λ n.
    IsSafe-bind (string_at d (codes "id")) _ (string_at-Shape d _)
      λ i. record { first = v.first; second = v.second; within = v.within }
handle-IsSafe new_message a d v =
    IsSafe-bind (string_at d (codes "username")) _ (string_at-Shape d _)
      λ u. IsSafe-bind (string_at d (codes "message")) _ (string_at-Shape d _) λ m. v
handle-IsSafe start a d v = v
handle-IsSafe get_matriz a d v =
    IsSafe-bind (string_at d (codes "n_size")) _ (string_at-Shape d _) λ n. v
handle-IsSafe solve a d v = IsSafe-bind (string_at d (codes "matriz")) _ (string_at-Shape d _) λ m.
    IsSafe-bind (string_at d (codes "id")) _ (string_at-Shape d _) λ i.
      elim (Bool-cases (bytes_eq i a.id)) [
        | inl e ↦ rw e (start_solving-IsSafe a m v)
        | inr e ↦ rw e v
      ]
handle-IsSafe ack_solve a d v = elim (Bool-cases (ltb a.step (limit a))) [
  | inl e ↦ rw e (next_step-IsSafe a v (ground arith))
  | inr e ↦ rw e (record { first = v.first; second = v.second; within = ground arith })
]
handle-IsSafe error_solve a d v = v

IsSafe-then :
    (r : Result (App × List Effect)) (k : App → Result (App × List Effect))
    → IsSafe r
    → ((a : App) → IsReady a → IsSafe (k a))
    → IsSafe (r >>= λ (a, did). k a >>= λ (b, more). ok (b, did ++ more))
IsSafe-then (err f) k h rest = h
IsSafe-then (ok (a, did)) k h rest = go (k a) (rest a h)
  where
    go :
        (r : Result (App × List Effect))
        → IsSafe r
        → IsSafe (r >>= λ (b, more). ok (b, did ++ more))
    go (ok (b, more)) h = h
    go (err f) h = h

run-IsSafe : (a : App) (es : List (Event × Ptr)) → IsReady a → IsSafe (run a es)
unfolding run
run-IsSafe a [] v = v
run-IsSafe a ((e, d) ∷ es) v =
    IsSafe-then (handle e a d) (λ b. run b es) (handle-IsSafe e a d v) (λ b w. run-IsSafe b es w)

init-IsReady : (sw : Bool) → IsReady (init sw)
unfolding init
init-IsReady sw = record { first = refl; second = refl; within = ground arith }

-- From the start of the program, whatever events and messages the server sends: as long as the
-- handlers return, both arrays keep their ten entries and `step_` is at most 3 on the first and 6 on
-- the second; and where one faults, the fault is not an index past the end of an array.
pub run-init-IsSafe : (sw : Bool) (es : List (Event × Ptr)) → IsSafe (run (init sw) es)
run-init-IsSafe sw es = run-IsSafe (init sw) es (init-IsReady sw)
