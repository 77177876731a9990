-- ===== src/Packet/Search.antt =====
-- Searches and substrings in a text of known parts.
use taquin_client_project.Base.{
  ℕ, ◌+◌, ◌-◌, ◌≤◌, ◌≡◌, refl, ap, sym, ◌∙◌, subst, arith, Bytes, Bool, true, false, none, some, [],
  ◌∷◌, ◌++◌, length, length-append, append_assoc, drop, drop-append, take-append, find_in, Avoids,
  get_or, leb, ltb, to_string, Digits, to_string-Digits,
}
use taquin_client_project.Result.{ok}
use taquin_client_project.Packet.{char_at}
use taquin_client_project.Packet.Parse.{
  find_first_of, substr_to, is_dash, is_comma, is_json_start, is_body_start,
}

pub find_in-append :
    (set : ℕ → Bool) (xs : Bytes) (c : ℕ) (ys : Bytes)
    → Avoids set xs
    → set c ≡ true
    → find_in set (xs ++ c ∷ ys) ≡ some (length xs)
unfolding find_in
find_in-append set [] c ys a h = rw h
find_in-append set (x ∷ xs) c ys a h = rw (a.0, find_in-append set xs c ys a.1 h)

find_in-none : (set : ℕ → Bool) (xs : Bytes) → Avoids set xs → find_in set xs ≡ none
unfolding find_in
find_in-none set [] a = refl
find_in-none set (x ∷ xs) a = rw (a.0, find_in-none set xs a.1)

pub Avoids-append :
    (set : ℕ → Bool) (xs ys : Bytes) → Avoids set xs → Avoids set ys → Avoids set (xs ++ ys)
Avoids-append set [] ys a b = b
Avoids-append set (x ∷ xs) ys a b = (a.0, Avoids-append set xs ys a.1 b)

-- The first hit lies behind a part without one.
pub find_first_of-append :
    (set : ℕ → Bool) (h xs : Bytes) (c : ℕ) (ys : Bytes) (n : ℕ)
    → n ≡ length h
    → Avoids set xs
    → set c ≡ true
    → find_first_of set (h ++ (xs ++ c ∷ ys)) n ≡ some (n + length xs)
unfolding find_first_of
find_first_of-append set h xs c ys n e a k =
    rw (e, drop-append h (xs ++ c ∷ ys), find_in-append set xs c ys a k, find_first_of)
      (ap (λ (k : ℕ). some (k + length xs)) e)

pub find_first_of-none :
    (set : ℕ → Bool) (h xs : Bytes) (n : ℕ)
    → n ≡ length h
    → Avoids set xs
    → find_first_of set (h ++ xs) n ≡ none
unfolding find_first_of
find_first_of-none set h xs n e a = rw (e, drop-append h xs, find_in-none set xs a, find_first_of)

pub drop-parts : (h x r : Bytes) (n : ℕ) → n ≡ length h + length x → drop n (h ++ (x ++ r)) ≡ r
drop-parts h x r n e = rw (e, ← length-append h x, ← append_assoc h x r) (drop-append (h ++ x) r)

pub substr_to-parts :
    (h x r : Bytes) (n m : ℕ)
    → n ≡ length h
    → m ≡ n + length x
    → substr_to (h ++ (x ++ r)) n (some m) ≡ ok x
unfolding substr_to
substr_to-parts h x r n m e f =
    let inside : leb n m ≡ true = ground arith in
    let reach : ltb (length (h ++ (x ++ r))) n ≡ false = ground (arith, length-append h (x ++ r)) in
    let count : m - n ≡ length x = omega arith in
    rw (reach, inside, count, e, drop-append h (x ++ r), take-append x r, substr_to)

pub char_at-parts :
    (h : Bytes) (c : ℕ) (r : Bytes) (n : ℕ) → n ≡ length h → char_at (h ++ c ∷ r) n ≡ c
char_at-parts h c r n e = rw e (go h)
  where
    go : (h : Bytes) → get_or (h ++ c ∷ r) (length h) 0 ≡ c
    go [] = refl
    go (x ∷ h) = go h

pub char_at-parts₂ :
    (h x : Bytes) (c : ℕ) (r : Bytes) (n : ℕ)
    → n ≡ length h + length x
    → char_at (h ++ (x ++ c ∷ r)) n ≡ c
char_at-parts₂ h x c r n e =
    subst (λ t. char_at t n ≡ c) (append_assoc h x (c ∷ r))
      (char_at-parts (h ++ x) c r n (omega (arith, length-append h x)))

-- A text split behind a byte.
pub split_behind : (h x : Bytes) (c : ℕ) (r : Bytes) → h ++ (x ++ c ∷ r) ≡ (h ++ (x ++ c ∷ [])) ++ r
split_behind h x c r =
    ap (◌++◌ h) (sym (append_assoc x (c ∷ []) r)) ∙ sym (append_assoc h (x ++ c ∷ []) r)

pub length-behind : (h x : Bytes) (c : ℕ) → length (h ++ (x ++ c ∷ [])) ≡ length h + length x + 1
length-behind h x c = omega (arith, length-append h (x ++ c ∷ []), length-append x (c ∷ []))

-- Digits are none of the bytes that the parser looks for.
abbrev pub IsMark : (ℕ → Bool) → Type 0
IsMark set = (c : ℕ) → b'0' ≤ c → c ≤ b'9' → set c ≡ false

Digits-Avoids : (set : ℕ → Bool) → IsMark set → (s : Bytes) → Digits s → Avoids set s
Digits-Avoids set m [] d = tt
Digits-Avoids set m (c ∷ s) d = (m c d.0.0 d.0.1, Digits-Avoids set m s d.1)

pub to_string-Avoids : (set : ℕ → Bool) → IsMark set → (n : ℕ) → Avoids set (to_string n)
to_string-Avoids set m n = Digits-Avoids set m (to_string n) (to_string-Digits n)

pub is_dash-IsMark : IsMark is_dash
is_dash-IsMark c h k = ground arith

pub is_comma-IsMark : IsMark is_comma
is_comma-IsMark c h k = ground arith

pub is_json_start-IsMark : IsMark is_json_start
is_json_start-IsMark c h k = ground arith

pub is_body_start-IsMark : IsMark is_body_start
is_body_start-IsMark c h k = ground arith
