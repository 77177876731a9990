-- ===== src/App.antt =====
-- taquin-client-cpp/main.cpp: the globals, and the handlers that `ServerTaquin` binds on the socket.
-- A handler runs under `_lock`, so it is one atomic step: it takes the state and the event's message
-- and returns the new state with what it did, in order. Assertions are on.
pub mod Session
pub mod Steps
pub mod Bounds
pub mod Wired
pub mod Served
use taquin_client_project.Base.{
  ℕ, suc, ◌+◌, ◌-◌, ◌%◌, ◌^◌, ℤ, pos, negsuc, sub_ℕ, to_int32, show_int, char_digit, Bytes, codes,
  bytes_eq, to_string, Bool, true, false, not, ◌&&◌, ltb, ◌==◌, if◌then◌else◌, is_pos, Option, none,
  some, List, [], ◌∷◌, ◌++◌, length, get_elem?, get_or,
}
use taquin_client_project.Result.{Result, ok, err, out_of_range, ◌>>=◌}
use taquin_client_project.Message.{Ptr, Fields, deref, get_int, get_string, get_map}
use taquin_client_project.Message.Objects

-- What a handler does to the world, apart from the state.
pub data Effect : Type 0 where
  emit : Bytes → Bytes → Effect
  off : Bytes → Effect
  highlight : Bytes → Effect
  em : Bytes → Effect
  out : Bytes → Effect

pub record App : Type 0 where
  pub participants : ℤ
  pub id : Bytes
  pub solve1 : List Bytes
  pub solve2 : List Bytes
  pub step : ℕ
  pub sw : Bool

-- `data->get_map()[key]->get_string()`, and the same with `get_int`.
unfoldable pub string_at : Ptr → Bytes → Result Bytes
string_at data' key = do
  m ← deref data'
  fs ← get_map m
  v ← deref (Objects.at key fs)
  get_string v

unfoldable pub int_at : Ptr → Bytes → Result ℤ
int_at data' key = do m ← deref data'; fs ← get_map m; v ← deref (Objects.at key fs); get_int v

unfoldable pub welcome : ℤ → Bytes → Bytes
welcome n id =
    let plural = not (is_pos n 1) in
    codes "Welcome to TAQUIN \nthere"
    ++ ((if plural then codes " are " else codes "'s ")
        ++ (show_int n
            ++ ((if plural then codes " participants" else codes " participant")
                ++ (codes "\n Your ID " ++ id))))

unfoldable pub on_login : App → Ptr → Result (App × List Effect)
on_login a d = do
  n ← int_at d (codes "numUsers")
  id ← string_at d (codes "id")
  let a' = record a { participants = to_int32 n; id = id }
  ok (a', highlight (welcome (to_int32 n) id) ∷ off (codes "login") ∷ [])

unfoldable pub on_new_message : App → Ptr → Result (App × List Effect)
on_new_message a d = do
  user ← string_at d (codes "username")
  message ← string_at d (codes "message")
  ok (a, em (user ++ (b':' ∷ message)) ∷ [])

unfoldable pub on_start : App → Ptr → Result (App × List Effect)
on_start a d = ok (a, emit (codes "start-request") a.id ∷ [])

-- `n=n_size[0]-'0'` for a text of one byte, else 10.
unfoldable pub parse_size : Bytes → ℤ
parse_size s = if length s == 1 then char_digit (get_or s 0 0) else pos 10

unfoldable pub on_get_matriz : App → Ptr → Result (App × List Effect)
on_get_matriz a d = do
  n_size ← string_at d (codes "n_size")
  let matriz = if not a.sw then codes "1 0 3 2" else codes "0 3 2 1"
  ok (
    a,
    out (n_size ++ (b' ' ∷ show_int (parse_size n_size)))
        ∷ emit (codes "get-matriz-reply") matriz
        ∷ [],
  )

-- `solve1[step_]`: past the end of the array the read is undefined.
unfoldable pub entry : List Bytes → ℕ → Result Bytes
entry table i = elim (get_elem? table i) [ none ↦ err out_of_range | some s ↦ ok s ]

unfoldable pub table : App → List Bytes
table a = if a.sw then a.solve1 else a.solve2

unfoldable pub step_text : ℕ → Bytes → Bytes
step_text i move = to_string (i + 1) ++ (b' ' ∷ move)

-- The body of `if(id_==id+"")`.
unfoldable pub start_solving : App → Bytes → Result (App × List Effect)
start_solving a matriz = do
  move ← entry (table a) 0
  let s = step_text 0 move
  ok (record a { step = 1 }, out (codes "Solve -> " ++ matriz) ∷ out s ∷ emit (codes "step") s ∷ [])

unfoldable pub on_solve : App → Ptr → Result (App × List Effect)
on_solve a d = do
  matriz ← string_at d (codes "matriz")
  id_ ← string_at d (codes "id")
  if bytes_eq id_ a.id then start_solving a matriz else ok (a, [])

-- `step_<3` on the first table, `step_<6` on the second.
abbrev pub limit : App → ℕ
limit a = if a.sw then 3 else 6

-- The body that the two branches of the tests on `step_` share.
unfoldable pub next_step : App → Result (App × List Effect)
next_step a = do
  move ← entry (table a) a.step
  let s = step_text a.step move
  ok (
    record a { step = a.step + 1 },
    out (codes "ack-solve ") ∷ out (codes "==> " ++ s) ∷ emit (codes "step") s ∷ [],
  )

unfoldable pub on_ack_solve : App → Ptr → Result (App × List Effect)
on_ack_solve a d =
    if ltb a.step (limit a)
    then next_step a
    else ok (record a { step = 0 }, out (codes "ack-solve ") ∷ [])

unfoldable pub on_error_solve : App → Ptr → Result (App × List Effect)
on_error_solve a d = ok (a, [])

-- The events that the client binds: "login" alone until the login, the others after it.
pub data Event : Type 0 where
  login new_message start get_matriz solve ack_solve error_solve : Event

abbrev pub handle : Event → App → Ptr → Result (App × List Effect)
handle login = on_login
handle new_message = on_new_message
handle start = on_start
handle get_matriz = on_get_matriz
handle solve = on_solve
handle ack_solve = on_ack_solve
handle error_solve = on_error_solve

-- A sequence of deliveries. A fault ends it.
unfoldable pub run : App → List (Event × Ptr) → Result (App × List Effect)
run a [] = ok (a, [])
run a ((e, d) ∷ rest) =
    handle e a d >>= λ (a', did). run a' rest >>= λ (a'', more). ok (a'', did ++ more)

-- The globals at the start, as `main` and the constructor of `ServerTaquin` set them: the arrays
-- have ten entries, those that are not assigned are empty.
unfoldable pub init : Bool → App
init sw = record {
  participants = negsuc 0;
  id = [];
  solve1 = codes "0 0" ∷ codes "0 1" ∷ codes "1 1" ∷ [] ∷ [] ∷ [] ∷ [] ∷ [] ∷ [] ∷ [] ∷ [];
  solve2 =
      codes "0 1"
      ∷ codes "1 1"
      ∷ codes "1 0"
      ∷ codes "0 0"
      ∷ codes "0 1"
      ∷ codes "1 1"
      ∷ []
      ∷ []
      ∷ []
      ∷ []
      ∷ [];
  step = 0;
  sw = sw;
}
