-- ===== src/App/Session/Order.antt =====
-- What the threads' steps keep, and where the waits of main.cpp fall short.
use taquin_client_project.Base.{
  ℤ, negsuc, to_int32, is_nonneg, Bool, true, false, not, if◌then◌else◌, List, [], ◌∷◌, ◌≡◌, refl,
  Bool-cases, inl, inr, sym, ◌∙◌, ap, subst,
}
use taquin_client_project.App.Session.{
  Main, starting, waiting_open, connected, asking, waiting_login, logged_in, Session, notified,
  test_open, ask, test_login, connection_opened, login_answered, start_session, Reaches, starts,
  tests_open, resumes_open, asks, tests_login, resumes_login, opens, reopens, answers, wakes,
}
use taquin_client_project.App.Session.Places.{
  past_open, past_login, past_asking, past_asking-notified, asking-past_open,
  notified-waiting_login, past_login-closed,
}

-- What the logins so far say of `participants`.
abbrev Reported : List ℤ → ℤ → Type 0
Reported [] p = p ≡ negsuc 0
Reported (n ∷ []) p = p ≡ to_int32 n
Reported (n ∷ k ∷ ns) p = ⊥

abbrev IsAnswered : List ℤ → Type 0
IsAnswered [] = ⊥
IsAnswered (n ∷ ns) = Unit {0}

record IsOrderly (ns : List ℤ) (s : Session) : Type 0 where
  open_first : past_open s.main ≡ true → s.connect_finish ≡ true
  reported : Reported ns s.participants
  bound_past : s.bound ≡ true → past_asking s.main ≡ true
  unasked : past_asking s.main ≡ false → ns ≡ []
  unanswered : s.bound ≡ true → ns ≡ []
  answered : past_login s.main ≡ true → IsAnswered ns
  negative : s.main ≡ waiting_login → is_nonneg s.participants ≡ false

-- A step of the main thread alone, which binds nothing.
moved-IsOrderly :
    (ns : List ℤ) (s : Session) (m : Main)
    → IsOrderly ns s
    → past_asking m ≡ past_asking s.main
    → (past_open m ≡ true → s.connect_finish ≡ true)
    → (past_login m ≡ true → IsAnswered ns)
    → (m ≡ waiting_login → is_nonneg s.participants ≡ false)
    → IsOrderly ns (record s { main = m })
moved-IsOrderly ns s m v same opens_first login wait = record {
  open_first = opens_first;
  reported = v.reported;
  bound_past = λ h. same ∙ v.bound_past h;
  unasked = λ h. v.unasked (sym same ∙ h);
  unanswered = v.unanswered;
  answered = login;
  negative = wait;
}

test_open-IsOrderly :
    (ns : List ℤ) (s : Session) → s.main ≡ starting → IsOrderly ns s → IsOrderly ns (test_open s)
unfolding test_open
test_open-IsOrderly ns s e v =
    let goal : Bool → Type 0 =
      λ b. IsOrderly ns (record s { main = if not b then waiting_open else connected }) in
    elim (Bool-cases s.connect_finish) [
      | inl f ↦
          subst goal (sym f) (
            moved-IsOrderly ns s connected v (ap past_asking (sym e)) (λ h. f) (λ h. cc)
              (λ h. cc h))
      | inr f ↦ subst goal (sym f) (
          moved-IsOrderly ns s waiting_open v (ap past_asking (sym e)) (λ h. cc) (λ h. cc)
            (λ h. cc h))
    ]

answered_nonneg : (ns : List ℤ) (p : ℤ) → Reported ns p → is_nonneg p ≡ true → IsAnswered ns
answered_nonneg [] p r h = cc (r, ap is_nonneg r, h)
answered_nonneg (n ∷ ns) p r h = tt

test_login-IsOrderly :
    (ns : List ℤ) (s : Session) → s.main ≡ asking → IsOrderly ns s → IsOrderly ns (test_login s)
unfolding test_login
test_login-IsOrderly ns s e v = elim (Bool-cases (is_nonneg s.participants)) [
  | inl f ↦ rw f (
      moved-IsOrderly ns s logged_in v (ap past_asking (sym e)) (λ h. v.open_first (ap past_open e))
        (λ h. answered_nonneg ns s.participants v.reported f) (λ h. cc h))
  | inr f ↦ rw f (
      moved-IsOrderly ns s waiting_login v (ap past_asking (sym e))
        (λ h. v.open_first (ap past_open e)) (λ h. cc) (λ h. f))
]

ask-IsOrderly :
    (ns : List ℤ) (s : Session) → s.main ≡ connected → IsOrderly ns s → IsOrderly ns (ask s)
unfolding ask
ask-IsOrderly ns s e v = record {
  open_first = λ h. v.open_first (ap past_open e);
  reported = v.reported;
  bound_past = λ h. refl;
  unasked = λ h. cc;
  unanswered = λ h. v.unasked (ap past_asking e);
  answered = λ h. cc;
  negative = λ h. cc h;
}

opened-IsOrderly :
    (ns : List ℤ) (s : Session)
    → s.connect_finish ≡ false
    → IsOrderly ns s
    → IsOrderly ns (connection_opened s)
unfolding connection_opened
opened-IsOrderly ns s e v =
    let closed : past_open s.main ≡ false = elim (Bool-cases (past_open s.main)) [
      | inl h ↦ cc (v.open_first h, e)
      | inr h ↦ h
    ] in
    record {
      open_first = λ h. refl;
      reported = v.reported;
      bound_past = λ h. past_asking-notified s.main ∙ v.bound_past h;
      unasked = λ h. v.unasked (sym (past_asking-notified s.main) ∙ h);
      unanswered = v.unanswered;
      answered = λ h. cc (h, past_login-closed s.main closed);
      negative = λ h. elim (notified-waiting_login s.main h) [ ];
    }

answered-IsOrderly :
    (n : ℤ) (ns : List ℤ) (s : Session)
    → s.bound ≡ true
    → IsOrderly ns s
    → IsOrderly (n ∷ ns) (login_answered n s)
unfolding login_answered
answered-IsOrderly n ns s e v = record {
  open_first = λ h. v.open_first (asking-past_open s.main (v.bound_past e));
  reported = subst (λ ks. Reported (n ∷ ks) (to_int32 n)) (sym (v.unanswered e)) refl;
  bound_past = λ h. cc;
  unasked = λ h. cc (h, past_asking-notified s.main, v.bound_past e);
  unanswered = λ h. cc;
  answered = λ h. tt;
  negative = λ h. elim (notified-waiting_login s.main h) [ ];
}

Reaches-IsOrderly :
    (loose : Bool) (ns : List ℤ) (s : Session) → loose ≡ false → Reaches loose ns s → IsOrderly ns s
unfolding start_session
Reaches-IsOrderly loose ns s q starts = record {
  open_first = λ h. cc;
  reported = refl;
  bound_past = λ h. cc;
  unasked = λ h. refl;
  unanswered = λ h. refl;
  answered = λ h. cc;
  negative = λ h. cc h;
}
Reaches-IsOrderly loose _ _ q (tests_open ns s r e) =
    test_open-IsOrderly ns s e (Reaches-IsOrderly loose ns s q r)
Reaches-IsOrderly loose _ _ q (resumes_open ns s r e) =
    let v = Reaches-IsOrderly loose ns s q r in
    moved-IsOrderly ns s connected v (ap past_asking (sym e)) (λ h. v.open_first (ap past_open e))
      (λ h. cc) (λ h. cc h)
Reaches-IsOrderly loose _ _ q (asks ns s r e) =
    ask-IsOrderly ns s e (Reaches-IsOrderly loose ns s q r)
Reaches-IsOrderly loose _ _ q (tests_login ns s r e) =
    test_login-IsOrderly ns s e (Reaches-IsOrderly loose ns s q r)
Reaches-IsOrderly loose _ _ q (resumes_login ns s r e) =
    let v = Reaches-IsOrderly loose ns s q r in
    moved-IsOrderly ns s logged_in v (ap past_asking (sym e)) (λ h. v.open_first (ap past_open e))
      (λ h. v.answered (ap past_login e)) (λ h. cc h)
Reaches-IsOrderly loose _ _ q (opens ns s r e) =
    opened-IsOrderly ns s e (Reaches-IsOrderly loose ns s q r)
Reaches-IsOrderly loose _ _ q (reopens ns s r e) = cc (q, e)
Reaches-IsOrderly loose _ _ q (answers n ns s r e) =
    answered-IsOrderly n ns s e (Reaches-IsOrderly loose ns s q r)
Reaches-IsOrderly loose _ _ q (wakes ns s r e) = cc (q, e)

answered-Reported :
    (ns : List ℤ) (p : ℤ)
    → IsAnswered ns
    → Reported ns p
    → (n : ℤ) × (ns ≡ n ∷ []) × (p ≡ to_int32 n)
answered-Reported [] p a r = elim a [ ]
answered-Reported (n ∷ []) p a r = (n, refl, r)
answered-Reported (n ∷ k ∷ ns) p a r = elim r [ ]

-- In every run in which the connection opens at most once and each wait ends by a notification, whatever
-- the order of the two threads' steps: where the main thread is behind the login, exactly one login was
-- answered, and `participants` is the number it reported; and where the main thread waits for the login,
-- `participants` is negative.
pub login_in_order :
    (ns : List ℤ) (s : Session)
    → Reaches false ns s
    → (s.main ≡ logged_in → (n : ℤ) × (ns ≡ n ∷ []) × (s.participants ≡ to_int32 n))
      × (s.main ≡ waiting_login → is_nonneg s.participants ≡ false)
login_in_order ns s r =
    let v = Reaches-IsOrderly false ns s refl r in
    (λ h. answered-Reported ns s.participants (v.answered (ap past_login h)) v.reported, v.negative)

-- The wait is no loop: from any state in which the main thread waits for the login, a connection that opens
-- again leads to a state behind the login with the same `participants` and no further login answered.
pub login_wait_ends_early :
    (ns : List ℤ) (s : Session)
    → Reaches true ns s
    → s.main ≡ waiting_login
    → (s' : Session) × Reaches true ns s'
      × (s'.main ≡ logged_in)
      × (s'.participants ≡ s.participants)
unfolding connection_opened
login_wait_ends_early ns s r e =
    let woken : Reaches true ns (connection_opened s) = reopens ns s r refl in
    (
      record (connection_opened s) { main = logged_in },
      resumes_login ns (connection_opened s) woken (ap notified e),
      refl,
      refl,
    )
