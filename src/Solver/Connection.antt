-- ===== src/Solver/Connection.antt =====
-- ConnectionServerSocketIO.java and main.java: what the Java client does with the events of its server.
-- Socket.IO and the objects of its JSON library are outside: a handler takes the arguments of an event, and
-- returns the client, what it did in order, and what it throws.
pub mod Keeps
pub mod Replies
pub mod Game
pub mod Sizes
use taquin_client_project.Base.{
  ℕ, ◌+◌, ◌%◌, Bytes, codes, to_string, bytes_eq, Bool, true, false, if◌then◌else◌, ℤ, Option, none,
  some, List, [], ◌∷◌, ◌++◌,
}
use taquin_client_project.Result.{Result, ok, err, Fault, null_pointer, bad_cast, out_of_range}
use taquin_client_project.Solver.Player.{
  Player, get_taquin, solve_taquin, solve_next_step, error_step,
}

-- What `getString` of an object gives for a key; `none` where it throws JSONException.
abbrev pub Json : Type 0
Json = Bytes → Option Bytes

-- `args[0]`: an object, `null`, or something that is no JSONObject.
pub data Argument : Type 0 where
  json : Json → Argument
  null_argument other_argument : Argument

-- What an event is named by: a constant of Socket.IO, or a text.
pub data Topic : Type 0 where
  event_connect event_disconnect : Topic
  named : Bytes → Topic

pub data Effect : Type 0 where
  open_socket : Bytes → Effect
  listen : Topic → Effect
  connect_socket disconnect_socket : Effect
  -- a `null` is sent as `none`
  emit : Bytes → Option Bytes → Effect
  print : Bytes → Effect
  -- `Logger...log(Level.SEVERE, null, ex)`
  severe : Effect

pub record Connection : Type 0 where
  -- the field `socket` is not null
  pub socket : Bool
  pub username : Bytes
  pub hostnambe : Bytes
  pub id : Option Bytes
  pub player : Player

abbrev pub Outcome : Type 0
Outcome = Connection × List Effect × Option Fault

unfoldable pub new_connection : Bytes → Bytes → Player → Connection
new_connection hostnambe username player = record {
  socket = false;
  username = username;
  hostnambe = hostnambe;
  id = none;
  player = player;
}

abbrev pub topics : List Topic
topics =
    event_connect
    ∷ named (codes "login")
    ∷ named (codes "start")
    ∷ named (codes "get-matriz")
    ∷ named (codes "solve")
    ∷ named (codes "ack-solve")
    ∷ named (codes "error-solve")
    ∷ event_disconnect
    ∷ []

abbrev pub listens : List Topic → List Effect
listens [] = []
listens (t ∷ ts) = listen t ∷ listens ts

-- Whether `IO.socket` takes the host, or throws URISyntaxException. The socket is a local variable.
unfoldable pub start_server_connection : (Bytes → Bool) → Connection → Outcome
start_server_connection is_uri c = (
  c,
  if is_uri c.hostnambe
      then open_socket c.hostnambe ∷ (listens topics ++ connect_socket ∷ [])
      else severe ∷ [],
  none,
)

-- `(JSONObject)args[0]`; `null` passes the cast.
unfoldable pub first_object : List Argument → Result (Option Json)
first_object [] = err out_of_range
first_object (json o ∷ _) = ok (some o)
first_object (null_argument ∷ _) = ok none
first_object (other_argument ∷ _) = err bad_cast

-- What a `try` with a `catch` of JSONException does with a text of an object.
unfoldable pub with_text :
    Connection → List Effect → Option Json → Bytes → (Bytes → Outcome) → Outcome
with_text c did none key f = (c, did, some null_pointer)
with_text c did (some o) key f = elim (o key) [
  | none ↦ (c, did ++ severe ∷ [], none)
  | some v ↦ f v
]

unfoldable pub with_object : Connection → List Argument → (Option Json → Outcome) → Outcome
unfolding first_object
with_object c args f = elim (first_object args) [ err e ↦ (c, [], some e) | ok o ↦ f o ]

unfoldable pub on_connect : Connection → Outcome
on_connect c = (c, emit (codes "add user") (some c.username) ∷ [], none)

unfoldable pub on_login : List Argument → Connection → Outcome
unfolding with_object with_text
on_login args c = with_object c args λ o.
    let did =
      print (codes "Welcome to TAQUIN") ∷ print (codes "Your username is " ++ c.username) ∷ [] in
    with_text c did o (codes "id")
      λ v. (record c { id = some v }, did ++ print (codes "Your ID is " ++ v) ∷ [], none)

unfoldable pub on_start : Connection → Outcome
on_start c = (c, emit (codes "start-request") c.id ∷ [], none)

-- `socket.emit(topic, ...)` of an answer of the client.
unfoldable pub reply : Bytes → Connection → Player × Result Bytes → Outcome
reply topic c (p, ok s) = (record c { player = p }, emit topic (some s) ∷ [], none)
reply topic c (p, err e) = (record c { player = p }, [], some e)

unfoldable pub on_get_matriz : (Bytes → Option ℤ) → List Argument → Connection → Outcome
unfolding with_object with_text reply
on_get_matriz parse_int args c = with_object c args λ o. with_text c [] o (codes "n_size") λ n_size.
    elim (parse_int n_size) [
      | none ↦ (c, [], some bad_cast)
      | some n ↦ reply (codes "get-matriz-reply") c (get_taquin n c.player)
    ]

-- `v.equals(id)`
abbrev pub is_id : Bytes → Option Bytes → Bool
is_id v none = false
is_id v (some i) = bytes_eq v i

unfoldable pub on_solve : (Bytes → Option ℤ) → List Argument → Connection → Outcome
unfolding with_object with_text reply
on_solve parse_int args c = with_object c args λ o. with_text c [] o (codes "id") λ v.
    let solving =
      with_text c [] o (codes "matriz")
        λ matriz. reply (codes "step") c (solve_taquin parse_int matriz c.player) in
    if is_id v c.id then solving else (c, [], none)

unfoldable pub on_ack_solve : Connection → Outcome
unfolding reply
on_ack_solve c = reply (codes "step") c (solve_next_step c.player)

unfoldable pub on_error_solve : Connection → Outcome
unfolding reply
on_error_solve c = reply (codes "step") c (error_step c.player)

pub data Event : Type 0 where
  connected start ack_solve error_solve disconnected : Event
  login get_matriz solve : List Argument → Event

-- The listeners; the last one does nothing.
unfoldable pub handle : (Bytes → Option ℤ) → Event → Connection → Outcome
unfolding on_connect on_login on_start on_get_matriz on_solve on_ack_solve on_error_solve
handle parse_int connected c = on_connect c
handle parse_int (login args) c = on_login args c
handle parse_int start c = on_start c
handle parse_int (get_matriz args) c = on_get_matriz parse_int args c
handle parse_int (solve args) c = on_solve parse_int args c
handle parse_int ack_solve c = on_ack_solve c
handle parse_int error_solve c = on_error_solve c
handle parse_int disconnected c = (c, [], none)

-- What a listener throws ends a run.
unfoldable pub and_then : Outcome → (Connection → Outcome) → Outcome
and_then (c, did, some f) rest = (c, did, some f)
and_then (c, did, none) rest = let (c', more, thrown) = rest c in (c', did ++ more, thrown)

-- Events in the order in which they come.
unfoldable pub run : (Bytes → Option ℤ) → List Event → Connection → Outcome
unfolding handle and_then
run parse_int [] c = (c, [], none)
run parse_int (e ∷ es) c = and_then (handle parse_int e c) (run parse_int es)

-- `socket.disconnect()` on the field.
unfoldable pub finalize : Connection → List Effect × Option Fault
finalize c = if c.socket then (disconnect_socket ∷ [], none) else ([], some null_pointer)

-- The client of `main`, at a time in milliseconds.
unfoldable pub main_client : ℕ → Player → Connection
unfolding new_connection
main_client millis player =
    new_connection (codes "https://proyect-taquin-bermeom.c9users.io/")
      (codes "JAVA" ++ to_string (millis % 100)) player
