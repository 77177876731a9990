-- ===== src/Packet/Body.antt =====
-- `parse` behind the frame, the type and the count: namespace, id and JSON text, as `accept` writes
-- them.
use taquin_client_project.Base.{
  ℕ, ◌+◌, ◌<◌, ◌^◌, ◌≡◌, refl, ap, sym, ◌∙◌, subst, arith, ℤ, pos, negsuc, is_pos, is_nonneg,
  show_int, to_string, to_string_pos, Bytes, codes, Bool, true, false, ◌&&◌, if◌then◌else◌, some,
  [], ◌∷◌, ◌++◌, length, length-append, append_assoc, Avoids, ltb, ◌==◌,
}
use taquin_client_project.Result.{Result, ok, ◌>>=◌}
use taquin_client_project.Json.{from_json, frame_message}
use taquin_client_project.Packet.{Packet, Codec}
use taquin_client_project.Packet.Parse.{
  find_first_of, is_comma, is_json_start, is_body_start, is_binary_type, parse_message, parse_nsp,
  parse_body,
}
use taquin_client_project.Packet.Search.{
  find_first_of-append, drop-parts, substr_to-parts, char_at-parts, char_at-parts₂, split_behind,
  length-behind, to_string-Avoids, IsMark, is_json_start-IsMark, is_body_start-IsMark,
  Avoids-append,
}

-- The ids that the code uses: none, or a number that an `int` holds.
pub data PackId : ℤ → Type 0 where
  no_id : PackId (negsuc 0)
  some_id : (n : ℕ) → n < 2 ^ 31 → PackId (pos n)

abbrev pub CastsInt : Codec → Type 0
CastsInt c = (n : ℕ) → n < 2 ^ 31 → c.cast_int (to_string n) ≡ some (pos n)

abbrev pub id_text : ℤ → Bytes
id_text i = if is_nonneg i then show_int i else []

-- What `parse` returns at the end, from the id and the JSON text.
abbrev pub parsed : Codec → Packet → ℤ → Bytes → Result (Packet × Bool)
parsed c p id text =
    if is_pos p.frame frame_message && is_binary_type p.type
    then ok (record p { pack_id = id; buffers = p.buffers ++ text ∷ [] }, true)
    else from_json (c.json_parse text) [] >>= λ m.
        ok (record p { pack_id = id; message = m }, false)

parse_message-parsed :
    (c : Codec) (p : Packet) (h json : Bytes) (from j : ℕ) (i : ℤ)
    → PackId i
    → CastsInt c
    → p.pack_id ≡ negsuc 0
    → from ≡ length h
    → j ≡ from + length (id_text i)
    → parse_message c p (h ++ (id_text i ++ json)) from j ≡ parsed c p i json
unfolding parse_message
parse_message-parsed c p h json from j i no_id casts e f g =
    let absent : ltb from j ≡ false = ground arith in
    rw (absent, drop-parts h [] json j (omega (arith, f)), e, parse_message)
parse_message-parsed c p h json from j i (some_id n small) casts e f g =
    let present : ltb from j ≡ true = ground (arith, to_string_pos n) in
    rw (
      present,
      substr_to-parts h (to_string n) json from j f g,
      casts n small,
      drop-parts h (to_string n) json j (omega (arith, f)),
      parse_message,
    )

-- A JSON text that the parser finds: it starts with a bracket, a brace or a quote.
pub data JsonText : Bytes → Type 0 where
  json_text : (c : ℕ) (s : Bytes) → is_json_start c ≡ true → JsonText (c ∷ s)

id_text-Avoids : (set : ℕ → Bool) → IsMark set → {i : ℤ} → PackId i → Avoids set (id_text i)
id_text-Avoids set m no_id = tt
id_text-Avoids set m (some_id n small) = to_string-Avoids set m n

pub json_start-body : (c : ℕ) → is_json_start c ≡ true → is_body_start c ≡ true
json_start-body c h = ground arith

pub json_start-slash : (c : ℕ) → is_json_start c ≡ true → (c == b'/') ≡ false
json_start-slash c h = ground arith

-- A message for the root namespace.
pub parse_body-root :
    (c : Codec) (p : Packet) (h json : Bytes) (from : ℕ) (i : ℤ)
    → PackId i
    → CastsInt c
    → JsonText json
    → p.pack_id ≡ negsuc 0
    → from ≡ length h
    → parse_body c p (h ++ (id_text i ++ json)) from
      ≡ parsed c (record p { nsp = codes "/" }) i json
unfolding parse_body
parse_body-root c p h json from i id casts (json_text ch s start) e f =
    let j : ℕ = from + length (id_text i) in
    let hit : find_first_of is_body_start (h ++ (id_text i ++ ch ∷ s)) from ≡ some j =
      find_first_of-append is_body_start h (id_text i) ch s from f
        (id_text-Avoids is_body_start is_body_start-IsMark id) (json_start-body ch start) in
    rw
      (
        hit,
        char_at-parts₂ h (id_text i) ch s j (omega (arith, f)),
        json_start-slash ch start,
        parse_body,
      )
      (parse_message-parsed c (record p { nsp = codes "/" }) h (ch ∷ s) from j i id casts e f refl)

-- A message for a namespace.
parse_nsp-message :
    (c : Codec) (p : Packet) (h nsp json : Bytes) (from : ℕ) (i : ℤ)
    → PackId i
    → CastsInt c
    → JsonText json
    → p.pack_id ≡ negsuc 0
    → from ≡ length h
    → Avoids is_comma h
    → Avoids is_comma nsp
    → parse_nsp c p (h ++ (nsp ++ b',' ∷ (id_text i ++ json))) from
      ≡ parsed c (record p { nsp = nsp }) i json
unfolding parse_nsp
parse_nsp-message c p h nsp json from i id casts (json_text ch s start) e f clean plain =
    let rest : Bytes = id_text i ++ ch ∷ s in
    let text : Bytes = h ++ (nsp ++ b',' ∷ rest) in
    let front : Bytes = h ++ (nsp ++ b',' ∷ []) in
    let k : ℕ = from + length nsp in
    let j : ℕ = k + 1 + length (id_text i) in
    let split : text ≡ front ++ rest = split_behind h nsp b',' rest in
    let behind : k + 1 ≡ length front = omega (arith, f, length-behind h nsp b',') in
    let comma : find_first_of is_comma text 0 ≡ some k =
      subst (λ t. find_first_of is_comma t 0 ≡ some k) (append_assoc h nsp (b',' ∷ rest))
        (find_first_of-append is_comma [] (h ++ nsp) b',' rest 0 refl
            (Avoids-append is_comma h nsp clean plain) refl
          ∙ ap some (omega (arith, f, length-append h nsp))) in
    let hit : find_first_of is_json_start text (k + 1) ≡ some j =
      subst (λ t. find_first_of is_json_start t (k + 1) ≡ some j) (sym split)
        (find_first_of-append is_json_start front (id_text i) ch s (k + 1) behind
          (id_text-Avoids is_json_start is_json_start-IsMark id) start) in
    rw (comma, substr_to-parts h nsp (b',' ∷ rest) from k f refl, hit, parse_nsp)
      (subst
        (λ t.
          parse_message c (record p { nsp = nsp }) t (k + 1) j
          ≡ parsed c (record p { nsp = nsp }) i (ch ∷ s))
        (sym split)
        (parse_message-parsed c (record p { nsp = nsp }) front (ch ∷ s) (k + 1) j i id casts e
          behind refl))

pub parse_body-nsp :
    (c : Codec) (p : Packet) (h name json : Bytes) (from : ℕ) (i : ℤ)
    → PackId i
    → CastsInt c
    → JsonText json
    → p.pack_id ≡ negsuc 0
    → from ≡ length h
    → Avoids is_comma h
    → Avoids is_comma name
    → parse_body c p (h ++ ((b'/' ∷ name) ++ b',' ∷ (id_text i ++ json))) from
      ≡ parsed c (record p { nsp = b'/' ∷ name }) i json
unfolding parse_body
parse_body-nsp c p h name json from i id casts start e f clean plain =
    let rest : Bytes = name ++ b',' ∷ (id_text i ++ json) in
    let hit : find_first_of is_body_start (h ++ b'/' ∷ rest) from ≡ some (from + 0) =
      find_first_of-append is_body_start h [] b'/' rest from f tt refl in
    let here : from + 0 ≡ length h = omega (arith, f) in
    rw (hit, char_at-parts h b'/' rest (from + 0) here, parse_body)
      (parse_nsp-message c p h (b'/' ∷ name) json (from + 0) i id casts start e here clean
        (refl, plain))
