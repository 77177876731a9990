-- ===== src/App/Session/Progress.antt =====
-- No state of the two threads up to the login is a dead end.
use taquin_client_project.Base.{
  ℕ, ℤ, zero, suc, ◌≤◌, is_nonneg, to_int32, Bool, true, false, not, if◌then◌else◌, List, [], ◌∷◌,
  ◌≡◌, refl, Bool-cases, inl, inr, sym, ◌∙◌, ap, arith, subst, ◌⊎◌,
}
use taquin_client_project.App.Session.{
  Main, starting, waiting_open, woken_open, connected, asking, waiting_login, woken_login,
  logged_in, Session, notified, test_open, ask, test_login, connection_opened, login_answered,
  start_session, Reaches, starts, tests_open, resumes_open, asks, tests_login, resumes_login, opens,
  reopens, answers, wakes,
}
use taquin_client_project.App.Session.Places.{
  past_asking, past_asking-notified, notified-waiting_login, notified-waiting_open,
}

-- A number of players that is not negative as an int.
abbrev pub IsCount : ℤ → Type 0
IsCount n = is_nonneg (to_int32 n) ≡ true

abbrev pub AllCounts : List ℤ → Type 0
AllCounts [] = Unit {0}
AllCounts (n ∷ ns) = IsCount n × AllCounts ns

-- Why a wait can end: the connection is not open yet, and the login is not answered yet.
record IsLive (s : Session) : Type 0 where
  unopened : s.main ≡ waiting_open → s.connect_finish ≡ false
  owed : past_asking s.main ≡ true → (s.bound ≡ true) ⊎ (is_nonneg s.participants ≡ true)
  negative : s.main ≡ waiting_login → is_nonneg s.participants ≡ false

-- A step of the main thread alone, which binds nothing.
moved-IsLive :
    (s : Session) (m : Main)
    → IsLive s
    → past_asking m ≡ past_asking s.main
    → (m ≡ waiting_open → s.connect_finish ≡ false)
    → (m ≡ waiting_login → is_nonneg s.participants ≡ false)
    → IsLive (record s { main = m })
moved-IsLive s m v same unopened negative = record {
  unopened = unopened;
  owed = λ h. v.owed (sym same ∙ h);
  negative = negative;
}

-- A notification, whatever it says of the connection.
notified-IsLive :
    (s : Session) (b : Bool)
    → IsLive s
    → IsLive (record s { main = notified s.main; connect_finish = b })
notified-IsLive s b v = record {
  unopened = λ h. elim (notified-waiting_open s.main h) [ ];
  owed = λ h. v.owed (sym (past_asking-notified s.main) ∙ h);
  negative = λ h. elim (notified-waiting_login s.main h) [ ];
}

answered-IsLive : (n : ℤ) (s : Session) → IsCount n → IsLive (login_answered n s)
unfolding login_answered
answered-IsLive n s counts = record {
  unopened = λ h. elim (notified-waiting_open s.main h) [ ];
  owed = λ h. inr counts;
  negative = λ h. elim (notified-waiting_login s.main h) [ ];
}

ask-IsLive : (s : Session) → IsLive (ask s)
unfolding ask
ask-IsLive s = record { unopened = λ h. cc h; owed = λ h. inl refl; negative = λ h. cc h }

test_open-IsLive : (s : Session) → s.main ≡ starting → IsLive s → IsLive (test_open s)
unfolding test_open
test_open-IsLive s e v =
    let goal : Bool → Type 0 =
      λ b. IsLive (record s { main = if not b then waiting_open else connected }) in
    elim (Bool-cases s.connect_finish) [
      | inl f ↦
          subst goal (sym f)
            (moved-IsLive s connected v (ap past_asking (sym e)) (λ h. cc h) (λ h. cc h))
      | inr f ↦
          subst goal (sym f)
            (moved-IsLive s waiting_open v (ap past_asking (sym e)) (λ h. f) (λ h. cc h))
    ]

test_login-IsLive : (s : Session) → s.main ≡ asking → IsLive s → IsLive (test_login s)
unfolding test_login
test_login-IsLive s e v = elim (Bool-cases (is_nonneg s.participants)) [
  | inl f ↦ rw f (moved-IsLive s logged_in v (ap past_asking (sym e)) (λ h. cc h) (λ h. cc h))
  | inr f ↦ rw f (moved-IsLive s waiting_login v (ap past_asking (sym e)) (λ h. cc h) (λ h. f))
]

Reaches-IsLive :
    (loose : Bool) (ns : List ℤ) (s : Session) → AllCounts ns → Reaches loose ns s → IsLive s
unfolding start_session connection_opened
Reaches-IsLive loose ns s q starts = record {
  unopened = λ h. refl;
  owed = λ h. cc;
  negative = λ h. cc h;
}
Reaches-IsLive loose _ _ q (tests_open ns s r e) =
    test_open-IsLive s e (Reaches-IsLive loose ns s q r)
Reaches-IsLive loose _ _ q (resumes_open ns s r e) =
    moved-IsLive s connected (Reaches-IsLive loose ns s q r) (ap past_asking (sym e)) (λ h. cc h)
      (λ h. cc h)
Reaches-IsLive loose _ _ q (asks ns s r e) = ask-IsLive s
Reaches-IsLive loose _ _ q (tests_login ns s r e) =
    test_login-IsLive s e (Reaches-IsLive loose ns s q r)
Reaches-IsLive loose _ _ q (resumes_login ns s r e) =
    moved-IsLive s logged_in (Reaches-IsLive loose ns s q r) (ap past_asking (sym e)) (λ h. cc h)
      (λ h. cc h)
Reaches-IsLive loose _ _ q (opens ns s r e) = notified-IsLive s true (Reaches-IsLive loose ns s q r)
Reaches-IsLive loose _ _ q (reopens ns s r e) =
    notified-IsLive s true (Reaches-IsLive loose ns s q r)
Reaches-IsLive loose _ _ q (answers n ns s r e) = answered-IsLive n s q.0
Reaches-IsLive loose _ _ q (wakes ns s r e) =
    notified-IsLive s s.connect_finish (Reaches-IsLive loose ns s q r)

-- A schedule: the step that leads on, the main thread's own or the one it waits for, where the server
-- answers a login with a number.
abbrev pub advance : ℤ → Main → Session → Session
advance k starting s = test_open s
advance k waiting_open s = connection_opened s
advance k woken_open s = record s { main = connected }
advance k connected s = ask s
advance k asking s = test_login s
advance k waiting_login s = login_answered k s
advance k woken_login s = record s { main = logged_in }
advance k logged_in s = s

unfoldable pub advances : ℕ → ℤ → Session → Session
advances zero k s = s
advances (suc j) k s = advances j k (advance k s.main s)

-- The steps left, at most.
abbrev left : Main → ℕ
left starting = 7
left waiting_open = 6
left woken_open = 5
left connected = 4
left asking = 3
left waiting_login = 2
left woken_login = 1
left logged_in = 0

-- What a step of the schedule gives: a state that the threads reach, with fewer steps left.
abbrev Advanced : Bool → Session → ℕ → Type 0
Advanced loose s j = (ns : List ℤ) × AllCounts ns × Reaches loose ns s × (left s.main ≤ j)

advance-Advanced :
    (loose : Bool) (ns : List ℤ) (s : Session) (k : ℤ) (m : Main) (j : ℕ)
    → AllCounts ns
    → IsCount k
    → Reaches loose ns s
    → s.main ≡ m
    → left m ≤ suc j
    → Advanced loose (advance k m s) j
unfolding test_open test_login ask connection_opened login_answered
advance-Advanced loose ns s k starting j q counts r e h = (
  ns,
  q,
  tests_open ns s r e,
  elim (Bool-cases s.connect_finish) [ inl f ↦ rw f (omega arith) | inr f ↦ rw f (omega arith) ],
)
advance-Advanced loose ns s k waiting_open j q counts r e h =
    let v = Reaches-IsLive loose ns s q r in
    (ns, q, opens ns s r (v.unopened e), rw e (omega arith))
advance-Advanced loose ns s k woken_open j q counts r e h =
    (ns, q, resumes_open ns s r e, omega arith)
advance-Advanced loose ns s k connected j q counts r e h = (ns, q, asks ns s r e, omega arith)
advance-Advanced loose ns s k asking j q counts r e h = (
  ns,
  q,
  tests_login ns s r e,
  elim (Bool-cases (is_nonneg s.participants)) [
    | inl f ↦ rw f (omega arith)
    | inr f ↦ rw f (omega arith)
  ],
)
advance-Advanced loose ns s k waiting_login j q counts r e h =
    let v = Reaches-IsLive loose ns s q r in
    let bound : s.bound ≡ true = elim (v.owed (ap past_asking e)) [
      | inl b ↦ b
      | inr n ↦ cc (n, v.negative e)
    ] in
    (k ∷ ns, (counts, q), answers k ns s r bound, rw e (omega arith))
advance-Advanced loose ns s k woken_login j q counts r e h =
    (ns, q, resumes_login ns s r e, omega arith)
advance-Advanced loose ns s k logged_in j q counts r e h = (ns, q, r, rw e (omega arith))

none_left : (m : Main) → left m ≤ 0 → m ≡ logged_in
none_left starting h = ground arith
none_left waiting_open h = ground arith
none_left woken_open h = ground arith
none_left connected h = ground arith
none_left asking h = ground arith
none_left waiting_login h = ground arith
none_left woken_login h = ground arith
none_left logged_in h = refl

advances-logged_in :
    (loose : Bool) (ns : List ℤ) (s : Session) (k : ℤ) (j : ℕ)
    → AllCounts ns
    → IsCount k
    → Reaches loose ns s
    → left s.main ≤ j
    → (ns' : List ℤ) × Reaches loose ns' (advances j k s) × ((advances j k s).main ≡ logged_in)
unfolding advances
advances-logged_in loose ns s k zero q counts r h = (ns, r, none_left s.main h)
advances-logged_in loose ns s k (suc j) q counts r h =
    let (ns', q', r', h') = advance-Advanced loose ns s k s.main j q counts r refl h in
    advances-logged_in loose ns' (advance k s.main s) k j q' counts r' h'

left_le_seven : (m : Main) → left m ≤ 7
left_le_seven starting = omega arith
left_le_seven waiting_open = omega arith
left_le_seven woken_open = omega arith
left_le_seven connected = omega arith
left_le_seven asking = omega arith
left_le_seven waiting_login = omega arith
left_le_seven woken_login = omega arith
left_le_seven logged_in = omega arith

-- In every run, with reconnects and waits that end by themselves or without, in which the numbers of the
-- logins answered are not negative as ints: from each state, seven steps that the threads can take lead
-- behind the login: the main thread's own where it is not waiting, the connection's opening where it waits
-- for that, and the answer to the login, with any number that is not negative, where it waits for that.
pub login_stays_possible :
    (loose : Bool) (ns : List ℤ) (s : Session) (k : ℤ)
    → AllCounts ns
    → IsCount k
    → Reaches loose ns s
    → (ns' : List ℤ) × Reaches loose ns' (advances 7 k s) × ((advances 7 k s).main ≡ logged_in)
login_stays_possible loose ns s k q counts r =
    advances-logged_in loose ns s k 7 q counts r (left_le_seven s.main)
