-- ===== src/App/Session.antt =====
-- The main thread of main.cpp against the network thread, up to the login: `connectionServer`,
-- `loginServer`, `on_connected` and the login listener. A step is what a thread does while it holds
-- `_lock`; a wait releases the lock, and ends by a notification or, where `loose` says so, by itself.
pub mod Places
pub mod Order
pub mod Progress
use taquin_client_project.Base.{
  ℤ, pos, negsuc, to_int32, is_nonneg, Bool, true, false, not, if◌then◌else◌, List, [], ◌∷◌, ◌≡◌,
  refl, Bool-cases, inl, inr, sym, ◌∙◌, ap, arith, subst,
}

-- Where the main thread is: in front of a test, waiting, woken but without the lock, or behind.
pub data Main : Type 0 where
  starting waiting_open woken_open connected asking waiting_login woken_login logged_in : Main

pub record Session : Type 0 where
  pub main : Main
  pub connect_finish : Bool
  pub participants : ℤ
  -- the login listener is bound
  pub bound : Bool

-- `_cond.notify_all()`
abbrev pub notified : Main → Main
notified waiting_open = woken_open
notified waiting_login = woken_login
notified m = m

-- `if(!connect_finish) _cond.wait(_lock);`
unfoldable pub test_open : Session → Session
test_open s = record s { main = if not s.connect_finish then waiting_open else connected }

-- `current_socket->on("login", ...)` and the emit.
unfoldable pub ask : Session → Session
ask s = record s { main = asking; bound = true }

-- `if (participants<0) _cond.wait(_lock);`
unfoldable pub test_login : Session → Session
test_login s = record s {
  main = if not (is_nonneg s.participants) then waiting_login else logged_in;
}

-- `on_connected`
unfoldable pub connection_opened : Session → Session
connection_opened s = record s { main = notified s.main; connect_finish = true }

-- The login listener, for the number that the server reports; it unbinds itself.
unfoldable pub login_answered : ℤ → Session → Session
login_answered n s = record s { main = notified s.main; participants = to_int32 n; bound = false }

unfoldable pub start_session : Session
start_session = record {
  main = starting;
  connect_finish = false;
  participants = negsuc 0;
  bound = false;
}

-- The states that a run reaches, with the numbers that logins reported, last first. Where `loose`, the
-- connection may open again, and a wait may end by itself.
pub data Reaches (loose : Bool) : List ℤ → Session → Type 0 where
  starts : Reaches loose [] start_session
  tests_open :
      (ns : List ℤ) (s : Session)
      → Reaches loose ns s
      → s.main ≡ starting
      → Reaches loose ns (test_open s)
  resumes_open :
      (ns : List ℤ) (s : Session)
      → Reaches loose ns s
      → s.main ≡ woken_open
      → Reaches loose ns (record s { main = connected })
  asks :
      (ns : List ℤ) (s : Session)
      → Reaches loose ns s
      → s.main ≡ connected
      → Reaches loose ns (ask s)
  tests_login :
      (ns : List ℤ) (s : Session)
      → Reaches loose ns s
      → s.main ≡ asking
      → Reaches loose ns (test_login s)
  resumes_login :
      (ns : List ℤ) (s : Session)
      → Reaches loose ns s
      → s.main ≡ woken_login
      → Reaches loose ns (record s { main = logged_in })
  opens :
      (ns : List ℤ) (s : Session)
      → Reaches loose ns s
      → s.connect_finish ≡ false
      → Reaches loose ns (connection_opened s)
  reopens :
      (ns : List ℤ) (s : Session)
      → Reaches loose ns s
      → loose ≡ true
      → Reaches loose ns (connection_opened s)
  answers :
      (n : ℤ) (ns : List ℤ) (s : Session)
      → Reaches loose ns s
      → s.bound ≡ true
      → Reaches loose (n ∷ ns) (login_answered n s)
  wakes :
      (ns : List ℤ) (s : Session)
      → Reaches loose ns s
      → loose ≡ true
      → Reaches loose ns (record s { main = notified s.main })
