-- ===== src/Packet/Head.antt =====
-- A whole text that `accept` writes for a message packet, read by `parse`.
use taquin_client_project.Base.{
  ℕ, ◌+◌, ◌<◌, ◌^◌, ◌≡◌, refl, ap, sym, ◌∙◌, subst, arith, ℤ, pos, negsuc, show_int, to_string,
  Bytes, codes, bytes_eq, Bool, true, false, not, ◌&&◌, if◌then◌else◌, some, [], ◌∷◌, ◌++◌, length,
  append_assoc, Avoids, ltb, ◌==◌,
}
use taquin_client_project.Result.{ok}
use taquin_client_project.Message.{nullptr}
use taquin_client_project.Json.{Buffers}
use taquin_client_project.Packet.{
  Packet, Codec, header, empty_packet, is_binary_message, type_event, type_ack, type_binary_event,
  type_binary_ack,
}
use taquin_client_project.Packet.Parse.{
  Stage, at_pos, continue, find_first_of, is_dash, is_comma, parse, parse_head, parse_count,
  parse_body,
}
use taquin_client_project.Packet.Search.{
  find_first_of-append, substr_to-parts, to_string-Avoids, is_dash-IsMark, is_comma-IsMark,
  Avoids-append, split_behind, length-behind,
}
use taquin_client_project.Packet.Body.{
  PackId, CastsInt, id_text, parsed, JsonText, parse_body-root, parse_body-nsp,
}

-- A namespace, and the one that `parse` makes of its text: the root may be left out, and any other
-- starts with a slash and has no comma.
pub data Nsp : Bytes → Bytes → Type 0 where
  no_nsp : Nsp [] (codes "/")
  root : Nsp (codes "/") (codes "/")
  named :
      (c : ℕ) (name : Bytes) → Avoids is_comma (c ∷ name) → Nsp (b'/' ∷ c ∷ name) (b'/' ∷ c ∷ name)

abbrev pub nsp_text : Bytes → Bytes
nsp_text nsp = if ltb 0 (length nsp) && not (bytes_eq nsp (codes "/")) then nsp ++ b',' ∷ [] else []

abbrev pub count_text : Buffers → Bytes
count_text bs = if ltb 0 (length bs) then to_string (length bs) ++ b'-' ∷ [] else []

header-parts :
    (t : ℤ) (bs : Buffers) (nsp : Bytes) (i : ℤ) (json : Bytes)
    → header t bs nsp i true ++ json
      ≡ show_int t ++ (count_text bs ++ (nsp_text nsp ++ (id_text i ++ json)))
unfolding header
header-parts t bs nsp i json =
    append_assoc (show_int t) _ json
    ∙ ap (◌++◌ (show_int t)) (
        append_assoc (count_text bs) _ json
        ∙ ap (◌++◌ (count_text bs)) (append_assoc (nsp_text nsp) (id_text i) json))

nsp_text-named :
    (c : ℕ) (name : Bytes) → nsp_text (b'/' ∷ c ∷ name) ≡ (b'/' ∷ c ∷ name) ++ b',' ∷ []
unfolding bytes_eq
nsp_text-named c name = ground arith

pub is_binary_message-cons : (c : ℕ) (s : Bytes) → is_binary_message (c ∷ s) ≡ (c == 4)
unfolding is_binary_message
is_binary_message-cons c s = ground arith

parse_body-parsed :
    (c : Codec) (p : Packet) (h nsp nsp' json : Bytes) (from : ℕ) (i : ℤ)
    → Nsp nsp nsp'
    → PackId i
    → CastsInt c
    → JsonText json
    → p.pack_id ≡ negsuc 0
    → from ≡ length h
    → Avoids is_comma h
    → parse_body c p (h ++ (nsp_text nsp ++ (id_text i ++ json))) from
      ≡ parsed c (record p { nsp = nsp' }) i json
unfolding bytes_eq
parse_body-parsed c p h nsp nsp' json from i no_nsp id casts start e f clean =
    parse_body-root c p h json from i id casts start e f
parse_body-parsed c p h nsp nsp' json from i root id casts start e f clean =
    parse_body-root c p h json from i id casts start e f
parse_body-parsed c p h nsp nsp' json from i (named ch name plain) id casts start e f clean =
    subst
      (λ t. parse_body c p (h ++ t) from ≡ parsed c (record p { nsp = b'/' ∷ ch ∷ name }) i json)
      (sym (
        ap (λ (t : Bytes). t ++ (id_text i ++ json)) (nsp_text-named ch name)
        ∙ append_assoc (b'/' ∷ ch ∷ name) (b',' ∷ []) (id_text i ++ json)))
      (parse_body-nsp c p h (ch ∷ name) json from i id casts start e f clean plain)

abbrev pub CastsUnsigned : Codec → Type 0
CastsUnsigned c = (n : ℕ) → n < 2 ^ 32 → c.cast_unsigned (to_string n) ≡ some n

-- The packet as it is before its message is there.
abbrev pub opened : ℕ → Bytes → ℕ → Packet
opened type nsp n = record {
  frame = pos 4;
  type = pos type;
  nsp = nsp;
  pack_id = negsuc 0;
  message = nullptr;
  pending = n;
  buffers = [];
}

-- The type with and without attachments.
abbrev pub final_type : Bool → Bool → ℕ
final_type is_ack has_binary =
    if is_ack
    then (if has_binary then type_binary_ack else type_ack)
    else (if has_binary then type_binary_event else type_event)

pub parse-continue :
    (c : Codec) (p : Packet) (s : Bytes) (h : Stage)
    → is_binary_message s ≡ false
    → parse_head c p s ≡ ok h
    → parse c p s ≡ continue c s h
unfolding parse
parse-continue c p s h b e = rw (b, e, parse)

pub parse-plain :
    (c : Codec) (is_ack : Bool) (nsp nsp' json : Bytes) (i : ℤ)
    → Nsp nsp nsp'
    → PackId i
    → CastsInt c
    → JsonText json
    → parse c empty_packet (b'4' ∷ (header (pos (final_type is_ack false)) [] nsp i true ++ json))
      ≡ parsed c (opened (final_type is_ack false) nsp' 0) i json
unfolding parse_head empty_packet to_string
parse-plain c true nsp nsp' json i n id casts start = rw (header-parts (pos 3) [] nsp i json) (
    parse-continue c empty_packet (b'4' ∷ b'3' ∷ (nsp_text nsp ++ (id_text i ++ json)))
      (at_pos (opened 3 [] 0) 2) (is_binary_message-cons b'4' _) refl
    ∙ parse_body-parsed c (opened 3 [] 0) (codes "43") nsp nsp' json 2 i n id casts start refl refl
        (refl, (refl, tt)))
parse-plain c false nsp nsp' json i n id casts start = rw (header-parts (pos 2) [] nsp i json) (
    parse-continue c empty_packet (b'4' ∷ b'2' ∷ (nsp_text nsp ++ (id_text i ++ json)))
      (at_pos (opened 2 [] 0) 2) (is_binary_message-cons b'4' _) refl
    ∙ parse_body-parsed c (opened 2 [] 0) (codes "42") nsp nsp' json 2 i n id casts start refl refl
        (refl, (refl, tt)))

-- The count in front of a text with attachments.
parse_count-at :
    (c : Codec) (p : Packet) (t n : ℕ) (rest : Bytes)
    → CastsUnsigned c
    → n < 2 ^ 32
    → is_dash t ≡ false
    → parse_count c p (b'4' ∷ t ∷ (to_string n ++ b'-' ∷ rest))
      ≡ ok (at_pos (record p { pending = n }) (2 + length (to_string n) + 1))
unfolding parse_count
parse_count-at c p t n rest casts small other =
    let ds : Bytes = to_string n in
    let s : Bytes = b'4' ∷ t ∷ (ds ++ b'-' ∷ rest) in
    let score : find_first_of is_dash s 0 ≡ some (2 + length ds) =
      find_first_of-append is_dash [] (b'4' ∷ t ∷ ds) b'-' rest 0 refl
        (refl, (other, to_string-Avoids is_dash is_dash-IsMark n)) refl
      ∙ ap some (omega arith) in
    rw (
      score,
      substr_to-parts (b'4' ∷ t ∷ []) ds (b'-' ∷ rest) 2 (2 + length ds) refl refl,
      casts n small,
      parse_count,
    )

-- The body behind the count.
behind_count :
    (c : Codec) (type t n : ℕ) (nsp nsp' json : Bytes) (i : ℤ)
    → Nsp nsp nsp'
    → PackId i
    → CastsInt c
    → JsonText json
    → is_comma t ≡ false
    → parse_body c
        (opened type [] n)
        (b'4' ∷ t ∷ (to_string n ++ b'-' ∷ (nsp_text nsp ++ (id_text i ++ json))))
        (2 + length (to_string n) + 1)
      ≡ parsed c (opened type nsp' n) i json
behind_count c type t n nsp nsp' json i ns id casts start other =
    let ds : Bytes = to_string n in
    let rest : Bytes = nsp_text nsp ++ (id_text i ++ json) in
    let front : Bytes = (b'4' ∷ t ∷ []) ++ (ds ++ b'-' ∷ []) in
    subst
      (λ s.
        parse_body c (opened type [] n) s (2 + length ds + 1)
        ≡ parsed c (opened type nsp' n) i json)
      (sym (split_behind (b'4' ∷ t ∷ []) ds b'-' rest))
      (parse_body-parsed c (opened type [] n) front nsp nsp' json (2 + length ds + 1) i ns id casts
        start refl (sym (length-behind (b'4' ∷ t ∷ []) ds b'-'))
        (
          refl,
          (
            other,
            Avoids-append is_comma ds (b'-' ∷ []) (to_string-Avoids is_comma is_comma-IsMark n)
                (refl, tt),
          ),
        ))

count_text-cons :
    (b : Bytes) (bs : Buffers) (rest : Bytes)
    → count_text (b ∷ bs) ++ rest ≡ to_string (length (b ∷ bs)) ++ b'-' ∷ rest
count_text-cons b bs rest =
    ap (λ (t : Bytes). t ++ rest) shown
    ∙ append_assoc (to_string (length (b ∷ bs))) (b'-' ∷ []) rest
  where
    shown : count_text (b ∷ bs) ≡ to_string (length (b ∷ bs)) ++ b'-' ∷ []
    shown = ground arith

pub parse-counted :
    (c : Codec) (is_ack : Bool) (b : Bytes) (bs : Buffers) (nsp nsp' json : Bytes) (i : ℤ)
    → Nsp nsp nsp'
    → PackId i
    → CastsInt c
    → CastsUnsigned c
    → JsonText json
    → length (b ∷ bs) < 2 ^ 32
    → parse c empty_packet
        (b'4' ∷ (header (pos (final_type is_ack true)) (b ∷ bs) nsp i true ++ json))
      ≡ parsed c (opened (final_type is_ack true) nsp' (length (b ∷ bs))) i json
unfolding parse_head empty_packet to_string
parse-counted c true b bs nsp nsp' json i ns id casts counts start small =
    let n : ℕ = length (b ∷ bs) in
    let rest : Bytes = nsp_text nsp ++ (id_text i ++ json) in
    rw (header-parts (pos 6) (b ∷ bs) nsp i json, count_text-cons b bs rest)
      (parse-continue c empty_packet (b'4' ∷ b'6' ∷ (to_string n ++ b'-' ∷ rest)) _
          (is_binary_message-cons b'4' _)
          (parse_count-at c (opened 6 [] 0) b'6' n rest counts small refl)
        ∙ behind_count c 6 b'6' n nsp nsp' json i ns id casts start refl)
parse-counted c false b bs nsp nsp' json i ns id casts counts start small =
    let n : ℕ = length (b ∷ bs) in
    let rest : Bytes = nsp_text nsp ++ (id_text i ++ json) in
    rw (header-parts (pos 5) (b ∷ bs) nsp i json, count_text-cons b bs rest)
      (parse-continue c empty_packet (b'4' ∷ b'5' ∷ (to_string n ++ b'-' ∷ rest)) _
          (is_binary_message-cons b'4' _)
          (parse_count-at c (opened 5 [] 0) b'5' n rest counts small refl)
        ∙ behind_count c 5 b'5' n nsp nsp' json i ns id casts start refl)
