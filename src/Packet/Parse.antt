-- ===== src/Packet/Parse.antt =====
-- `packet::parse` and `packet::parse_buffer` of sio_packet.cpp.
use taquin_client_project.Base.{
  ℕ, ◌+◌, ◌-◌, ℤ, negsuc, is_pos, is_nonneg, char_digit, pos_part, Bytes, codes, Bool, true, false,
  not, ◌&&◌, ◌||◌, ltb, leb, ◌==◌, if◌then◌else◌, Option, none, some, [], ◌∷◌, ◌++◌, length, drop,
  take, find_in,
}
use taquin_client_project.Result.{Result, ok, err, assertion, bad_cast, out_of_range, ◌>>=◌}
use taquin_client_project.Message.{nullptr}
use taquin_client_project.Json.{Buffers, from_json, frame_message}
use taquin_client_project.Packet.{
  Packet, Codec, is_binary_message, char_at, type_binary_event, type_binary_ack,
}

-- `find_first_of(set, from)`, with `none` for `npos`.
unfoldable pub find_first_of : (ℕ → Bool) → Bytes → ℕ → Option ℕ
find_first_of set s from = elim (find_in set (drop from s)) [
  | none ↦ none
  | some i ↦ some (from + i)
]

-- `substr(from, to - from)` for unsigned numbers: where `to` is `npos` or before `from` the count
-- wraps around and the rest of the text is meant.
unfoldable pub substr_to : Bytes → ℕ → Option ℕ → Result Bytes
substr_to s from to =
    if ltb (length s) from
    then err out_of_range
    else ok (elim to [
      | none ↦ drop from s
      | some n ↦ if leb from n then take (n - from) (drop from s) else drop from s
    ])

abbrev pub or_bad_cast {ℓ} : {A : Type ℓ} → Option A → Result A
or_bad_cast none = err bad_cast
or_bad_cast (some a) = ok a

abbrev pub is_dash : ℕ → Bool
is_dash c = c == b'-'

abbrev pub is_comma : ℕ → Bool
is_comma c = c == b','

-- "\"[{"
abbrev pub is_json_start : ℕ → Bool
is_json_start c = c == b'"' || (c == b'[' || c == b'{')

-- "{[\"/"
abbrev pub is_body_start : ℕ → Bool
is_body_start c = is_json_start c || c == b'/'

abbrev pub is_binary_type : ℤ → Bool
is_binary_type t = is_pos t type_binary_event || is_pos t type_binary_ack

-- How far `parse` is: the packet so far and `pos`, or an early `return false`.
pub data Stage : Type 0 where
  at_pos : Packet → ℕ → Stage
  done : Packet → Stage

-- `pos = score_pos+1`, which is 0 after `npos`.
abbrev pub after_score : Option ℕ → ℕ
after_score none = 0
after_score (some n) = n + 1

unfoldable pub parse_count : Codec → Packet → Bytes → Result Stage
parse_count c p s =
    let score = find_first_of is_dash s 0 in
    substr_to s 2 score >>= λ text. or_bad_cast (c.cast_unsigned text) >>= λ n.
    ok (at_pos (record p { pending = n }) (after_score score))

-- The frame, the type and the number of attachments.
unfoldable pub parse_head : Codec → Packet → Bytes → Result Stage
parse_head c p s =
    let p' = record p {
      frame = char_digit (char_at s 0);
      message = nullptr;
      pack_id = negsuc 0;
      buffers = [];
      pending = 0;
    } in
    if is_pos p'.frame frame_message
    then (let t = char_digit (char_at s 1) in
        let p'' = record p' { type = t } in
        if not (is_nonneg t) || ltb 6 (pos_part t)
        then ok (done p'')
        else if is_binary_type t
        then parse_count c p'' s
        else ok (at_pos p'' 2))
    else ok (at_pos p' 1)

-- The id in front of the JSON text, and the text itself.
unfoldable pub parse_message : Codec → Packet → Bytes → ℕ → ℕ → Result (Packet × Bool)
parse_message c p s from json_pos = do
  id ←
      (if ltb from json_pos
        then (substr_to s from (some json_pos) >>= λ text. or_bad_cast (c.cast_int text))
        else ok p.pack_id)
  let p' = record p { pack_id = id }
  let text = drop json_pos s
  if is_pos p.frame frame_message && is_binary_type p.type
      then ok (record p' { buffers = p'.buffers ++ text ∷ [] }, true)
      else (from_json (c.json_parse text) [] >>= λ m. ok (record p' { message = m }, false))

-- A namespace starts at `start`.
unfoldable pub parse_nsp : Codec → Packet → Bytes → ℕ → Result (Packet × Bool)
parse_nsp c p s start = elim (find_first_of is_comma s 0) [
  | none ↦ ok (record p { nsp = drop start s }, false)
  | some comma ↦ substr_to s start (some comma) >>= λ nsp.
      let p' = record p { nsp = nsp } in
      elim (find_first_of is_json_start s (comma + 1)) [
        | none ↦ ok (p', false)
        | some json_pos ↦ parse_message c p' s (comma + 1) json_pos
      ]
]

-- The namespace, if there is one, and what follows.
unfoldable pub parse_body : Codec → Packet → Bytes → ℕ → Result (Packet × Bool)
parse_body c p s from = elim (find_first_of is_body_start s from) [
  | none ↦ ok (record p { nsp = codes "/" }, false)
  | some start ↦
      if char_at s start == b'/'
      then parse_nsp c p s start
      else parse_message c (record p { nsp = codes "/" }) s from start
]

abbrev pub continue : Codec → Bytes → Stage → Result (Packet × Bool)
continue c s (done p) = ok (p, false)
continue c s (at_pos p from) = parse_body c p s from

-- The whole of `parse`: true where attachments have to follow.
unfoldable pub parse : Codec → Packet → Bytes → Result (Packet × Bool)
parse c p s =
    if is_binary_message s
    then err assertion
    else (parse_head c p s >>= λ stage. continue c s stage)

-- The last attachment is there: the text that was kept in front is parsed among the others.
unfoldable pub finish : Codec → Packet → Buffers → Result (Packet × Bool)
finish c p [] = err assertion
finish c p (text ∷ rest) = from_json (c.json_parse text) rest >>= λ m.
    ok (record p { message = m; buffers = []; pending = 0 }, false)

unfoldable pub parse_buffer : Codec → Packet → Bytes → Result (Packet × Bool)
parse_buffer c p s =
    if ltb 0 p.pending
    then (if is_binary_message s
        then (let bs = p.buffers ++ drop 1 s ∷ [] in
            if p.pending == 1
            then finish c p bs
            else ok (record p { buffers = bs; pending = p.pending - 1 }, true))
        else err assertion)
    else ok (p, false)
