-- ===== src/Tests/Threads.antt =====
-- Concrete runs of the two threads of main.cpp.
use taquin_client_project.Base.{
  List, ℤ, pos, to_int32, is_nonneg, Bool, true, false, [], ◌∷◌, ◌≡◌, refl,
}
use taquin_client_project.App.Session.{
  Session, Reaches, starts, opens, tests_open, asks, tests_login, answers, resumes_login,
  start_session, connection_opened, test_open, ask, test_login, login_answered, logged_in,
  waiting_login,
}
use taquin_client_project.App.Session.Order.{login_in_order, login_wait_ends_early}
use taquin_client_project.App.Session.Progress.{advances, login_stays_possible}

-- The main thread waits for the login.
abbrev waiting_state : Session
waiting_state = test_login (ask (test_open (connection_opened start_session)))

waiting_run : (loose : Bool) → Reaches loose [] waiting_state
unfolding start_session connection_opened test_open ask test_login
waiting_run loose =
    tests_login [] _ (asks [] _ (tests_open [] _ (opens [] _ starts refl) refl) refl) refl

-- Three players.
abbrev login_state : Session
login_state = record (login_answered (pos 3) waiting_state) { main = logged_in }

login_run : Reaches false (pos 3 ∷ []) login_state
unfolding start_session connection_opened test_open ask test_login login_answered
login_run =
    resumes_login (pos 3 ∷ []) _ (answers (pos 3) [] waiting_state (waiting_run false) refl) refl

login_in_order_example :
    (login_state.main ≡ logged_in
      → (n : ℤ) × ((pos 3 ∷ []) ≡ n ∷ []) × (login_state.participants ≡ to_int32 n))
    × (login_state.main ≡ waiting_login → is_nonneg login_state.participants ≡ false)
login_in_order_example = login_in_order (pos 3 ∷ []) login_state login_run

login_wait_ends_early_example :
    (s' : Session) × Reaches true [] s'
    × (s'.main ≡ logged_in)
    × (s'.participants ≡ waiting_state.participants)
unfolding start_session connection_opened test_open ask test_login
login_wait_ends_early_example = login_wait_ends_early [] waiting_state (waiting_run true) refl

login_stays_possible_example :
    (ns' : List ℤ) × Reaches true ns' (advances 7 (pos 3) waiting_state)
    × ((advances 7 (pos 3) waiting_state).main ≡ logged_in)
unfolding to_int32
login_stays_possible_example =
    login_stays_possible true [] waiting_state (pos 3) tt refl (waiting_run true)
