-- ===== src/App/Session/Places.antt =====
-- Where the main thread of main.cpp is, up to the login, and where a notification takes it.
use taquin_client_project.Base.{Bool, true, false, ◌≡◌, refl}
use taquin_client_project.App.Session.{
  Main, starting, waiting_open, woken_open, connected, asking, waiting_login, woken_login,
  logged_in, notified,
}

-- Behind the wait for the connection, and woken or behind the wait for the login.
abbrev pub past_open : Main → Bool
past_open starting = false
past_open waiting_open = false
past_open m = true

abbrev pub past_login : Main → Bool
past_login woken_login = true
past_login logged_in = true
past_login m = false

-- The listener has been bound.
abbrev pub past_asking : Main → Bool
past_asking asking = true
past_asking waiting_login = true
past_asking woken_login = true
past_asking logged_in = true
past_asking m = false

-- A wake-up moves the main thread past neither test.
pub past_asking-notified : (m : Main) → past_asking (notified m) ≡ past_asking m
past_asking-notified starting = refl
past_asking-notified waiting_open = refl
past_asking-notified woken_open = refl
past_asking-notified connected = refl
past_asking-notified asking = refl
past_asking-notified waiting_login = refl
past_asking-notified woken_login = refl
past_asking-notified logged_in = refl

pub asking-past_open : (m : Main) → past_asking m ≡ true → past_open m ≡ true
asking-past_open starting e = e
asking-past_open waiting_open e = e
asking-past_open woken_open e = refl
asking-past_open connected e = refl
asking-past_open asking e = refl
asking-past_open waiting_login e = refl
asking-past_open woken_login e = refl
asking-past_open logged_in e = refl

pub notified-waiting_login : (m : Main) → notified m ≡ waiting_login → ⊥
notified-waiting_login starting e = cc e
notified-waiting_login waiting_open e = cc e
notified-waiting_login woken_open e = cc e
notified-waiting_login connected e = cc e
notified-waiting_login asking e = cc e
notified-waiting_login waiting_login e = cc e
notified-waiting_login woken_login e = cc e
notified-waiting_login logged_in e = cc e

pub past_login-closed : (m : Main) → past_open m ≡ false → past_login (notified m) ≡ false
past_login-closed starting e = refl
past_login-closed waiting_open e = refl
past_login-closed woken_open e = cc
past_login-closed connected e = cc
past_login-closed asking e = cc
past_login-closed waiting_login e = cc
past_login-closed woken_login e = cc
past_login-closed logged_in e = cc

pub notified-waiting_open : (m : Main) → notified m ≡ waiting_open → ⊥
notified-waiting_open starting e = cc e
notified-waiting_open waiting_open e = cc e
notified-waiting_open woken_open e = cc e
notified-waiting_open connected e = cc e
notified-waiting_open asking e = cc e
notified-waiting_open waiting_login e = cc e
notified-waiting_open woken_login e = cc e
notified-waiting_open logged_in e = cc e
