-- ===== src/Solver/Text/Words.antt =====
-- Words of digits with a space before each, trimmed and split.
use taquin_client_project.Base.{
  ℕ, ◌<◌, ◌≡◌, ◌∙◌, refl, ap, arith, Bytes, Digits, List, [], ◌∷◌, ◌++◌, append-nil, append_assoc,
  length, length-append,
}
use taquin_client_project.Solver.Text.{trim_start, trim_end, pieces, drop_empty, split}

abbrev pub IsWord : Bytes → Type 0
IsWord w = (0 < length w) × Digits w

abbrev pub AllWords : List Bytes → Type 0
AllWords [] = Unit {0}
AllWords (w ∷ ws) = IsWord w × AllWords ws

-- Each word behind a space.
unfoldable pub joined : List Bytes → Bytes
joined [] = []
joined (w ∷ ws) = b' ' ∷ w ++ joined ws

trim_end-Digits : (w : Bytes) → Digits w → trim_end w ≡ w
unfolding trim_end
trim_end-Digits [] h = refl
trim_end-Digits (c ∷ w) (h, k) = ground (arith, trim_end-Digits w k)

trim_end-cons : (c : ℕ) (s : Bytes) → 0 < length s → trim_end s ≡ s → trim_end (c ∷ s) ≡ c ∷ s
unfolding trim_end
trim_end-cons c [] h e = absurd (omega arith)
trim_end-cons c (x ∷ s) h e = rw e (ground arith)

trim_end-append : (s t : Bytes) → 0 < length t → trim_end t ≡ t → trim_end (s ++ t) ≡ s ++ t
trim_end-append [] t h e = e
trim_end-append (c ∷ s) t h e =
    trim_end-cons c (s ++ t) (omega (arith, length-append s t)) (trim_end-append s t h e)

trim_end-joined :
    (w : Bytes) (ws : List Bytes)
    → IsWord w
    → AllWords ws
    → trim_end (w ++ joined ws) ≡ w ++ joined ws
unfolding joined
trim_end-joined w [] (h, d) k =
    let itself : w ++ [] ≡ w = append-nil w in rw itself (trim_end-Digits w d)
trim_end-joined w (v ∷ ws) h ((some_byte, d), l) =
    let most : 0 < length (v ++ joined ws) =
      omega (arith, length-append v (joined ws), some_byte) in
    trim_end-append w (b' ' ∷ v ++ joined ws) (omega arith)
      (trim_end-cons b' ' (v ++ joined ws) most (trim_end-joined v ws (some_byte, d) l))

trim_start-joined : (w s : Bytes) → IsWord w → trim_start (b' ' ∷ w ++ s) ≡ w ++ s
unfolding trim_start
trim_start-joined [] s h = absurd (omega (arith, h))
trim_start-joined (c ∷ w) s h = ground (arith, h)

pieces-Digits : (w : Bytes) → Digits w → pieces w ≡ w ∷ []
unfolding pieces
pieces-Digits [] h = refl
pieces-Digits (c ∷ w) (h, k) = ground (arith, pieces-Digits w k)

pieces-space : (w s : Bytes) → Digits w → pieces (w ++ b' ' ∷ s) ≡ w ∷ pieces s
unfolding pieces
pieces-space [] s h = refl
pieces-space (c ∷ w) s (h, k) = ground (arith, pieces-space w s k)

pieces-joined :
    (w : Bytes) (ws : List Bytes) → IsWord w → AllWords ws → pieces (w ++ joined ws) ≡ w ∷ ws
unfolding joined
pieces-joined w [] (h, d) k =
    let itself : w ++ [] ≡ w = append-nil w in rw itself (pieces-Digits w d)
pieces-joined w (v ∷ ws) (h, d) (k, l) =
    pieces-space w (v ++ joined ws) d ∙ ap (λ rest. w ∷ rest) (pieces-joined v ws k l)

drop_empty-words : (ws : List Bytes) → AllWords ws → drop_empty ws ≡ ws
unfolding drop_empty
drop_empty-words [] h = refl
drop_empty-words ([] ∷ ws) ((h, d), k) = absurd (omega arith)
drop_empty-words ((c ∷ w) ∷ ws) (h, k) = rw (drop_empty-words ws k) refl

split-joined :
    (w : Bytes) (ws : List Bytes) → IsWord w → AllWords ws → split (w ++ joined ws) ≡ w ∷ ws
unfolding split
split-joined [] ws (h, d) k = absurd (omega arith)
split-joined (c ∷ w) ws h k =
    ap drop_empty (pieces-joined (c ∷ w) ws h k) ∙ drop_empty-words ((c ∷ w) ∷ ws) (h, k)

-- Words that are joined, trimmed and split are the words.
pub split-trim :
    (w : Bytes) (ws : List Bytes)
    → IsWord w
    → AllWords ws
    → split (trim_end (trim_start (joined (w ∷ ws)))) ≡ w ∷ ws
unfolding joined
split-trim w ws h k =
    ap (λ s. split (trim_end s)) (trim_start-joined w (joined ws) h)
    ∙ ap split (trim_end-joined w ws h k)
    ∙ split-joined w ws h k

pub joined-append : (vs ws : List Bytes) → joined (vs ++ ws) ≡ joined vs ++ joined ws
unfolding joined
joined-append [] ws = refl
joined-append (v ∷ vs) ws = rw (joined-append vs ws, append_assoc) refl
