-- ===== src/Packet.antt =====
-- taquin-client-cpp/libs/src/internal/sio_packet.{h,cpp}: the class `packet`. RapidJSON's writer and
-- parser and Boost's `lexical_cast` are the fields of `Codec`. Assertions are on.

pub mod Parse
pub mod Search
pub mod Body
pub mod Head
pub mod Receive
pub mod RoundTrip
pub mod Sent
pub mod Manager
use taquin_client_project.Base.{
  ℕ, suc, ◌+◌, ◌-◌, ◌/◌, ◌%◌, ◌*◌, ◌<◌, ◌^◌, ◌≡◌, ℤ, pos, negsuc, is_pos, is_nonneg, show_int,
  to_string, pos_part, neg_part, Bytes, codes, bytes_eq, Bool, true, false, not, ◌&&◌, ◌||◌, ltb,
  ◌==◌, if◌then◌else◌, Option, none, some, List, [], ◌∷◌, ◌++◌, length, get_or, drop,
}
use taquin_client_project.Result.{Result, ok, err, assertion, ◌>>=◌}
use taquin_client_project.Message.{Message, Ptr, nullptr, ptr}
use taquin_client_project.Json.{Buffers, Value, accept_message, from_json, frame_message}

-- The libraries that the class calls: the text of a JSON document and back, and the two casts from
-- text, with `none` for `bad_lexical_cast`.
pub record Codec : Type 0 where
  pub json_write : Value → Bytes
  pub json_parse : Bytes → Value
  pub cast_unsigned : Bytes → Option ℕ
  pub cast_int : Bytes → Option ℤ

-- The values of the two enumerations.
abbrev pub type_connect : ℕ
type_connect = 0

abbrev pub type_disconnect : ℕ
type_disconnect = 1

abbrev pub type_event : ℕ
type_event = 2

abbrev pub type_ack : ℕ
type_ack = 3

abbrev pub type_error : ℕ
type_error = 4

abbrev pub type_binary_event : ℕ
type_binary_event = 5

abbrev pub type_binary_ack : ℕ
type_binary_ack = 6

abbrev pub type_undetermined : ℕ
type_undetermined = 16

-- `_type` and `_frame` are integers: `parse` puts any character's offset in them.
pub record Packet : Type 0 where
  pub frame : ℤ
  pub type : ℤ
  pub nsp : Bytes
  pub pack_id : ℤ
  pub message : Ptr
  pub pending : ℕ
  pub buffers : Buffers

-- `packet(nsp, msg, pack_id, isAck)`
unfoldable pub message_packet : Bytes → Ptr → ℤ → Bool → Result Packet
message_packet nsp msg pack_id is_ack =
    if not is_ack || is_nonneg pack_id
    then ok (record {
      frame = pos frame_message;
      type = pos ((if is_ack then type_ack else type_event) + type_undetermined);
      nsp = nsp;
      pack_id = pack_id;
      message = msg;
      pending = 0;
      buffers = [];
    })
    else err assertion

-- `packet(type, nsp, msg)`
unfoldable pub typed_packet : ℕ → Bytes → Ptr → Packet
typed_packet type nsp msg = record {
  frame = pos frame_message;
  type = pos type;
  nsp = nsp;
  pack_id = negsuc 0;
  message = msg;
  pending = 0;
  buffers = [];
}

-- `packet(frame)`
unfoldable pub frame_packet : ℕ → Packet
frame_packet frame = record {
  frame = pos frame;
  type = pos type_undetermined;
  nsp = [];
  pack_id = negsuc 0;
  message = nullptr;
  pending = 0;
  buffers = [];
}

-- `packet()`, which leaves `_frame` unset; `parse` sets it first.
unfoldable pub empty_packet : Packet
unfolding frame_packet
empty_packet = frame_packet 0

-- `payload_ptr[i]`, which is 0 at the end of the string.
abbrev pub char_at : Bytes → ℕ → ℕ
char_at s i = get_or s i 0

unfoldable pub is_binary_message : Bytes → Bool
is_binary_message s = ltb 0 (length s) && char_at s 0 == frame_message

unfoldable pub is_text_message : Bytes → Bool
is_text_message s = ltb 0 (length s) && char_at s 0 == frame_message + b'0'

unfoldable pub is_message : Bytes → Bool
unfolding is_binary_message is_text_message
is_message s = is_binary_message s || is_text_message s

-- `_type&(~type_undetermined)`: bit 4 is cleared, in two's complement.
unfoldable pub determined : ℤ → ℤ
determined (pos n) = pos (if n / 16 % 2 == 1 then n - 16 else n)
determined (negsuc n) = negsuc (if n / 16 % 2 == 1 then n else n + 16)

-- `get_type`, which asserts that `accept` or `parse` has run.
unfoldable pub get_type : Packet → Result ℤ
unfolding determined
get_type p = elim p.type [
  | pos n ↦ if n / 16 % 2 == 1 then err assertion else ok (pos n)
  | negsuc n ↦ if n / 16 % 2 == 1 then ok (negsuc n) else err assertion
]

-- An event or an acknowledgement with attachments gets the binary type.
unfoldable pub binary_type : ℤ → Bool → ℤ
binary_type t has_binary =
    if is_pos t type_event
    then pos (if has_binary then type_binary_event else type_event)
    else if is_pos t type_ack
    then pos (if has_binary then type_binary_ack else type_ack)
    else t

-- What `ss` holds at the end: type, number of attachments, namespace and id.
unfoldable pub header : ℤ → Buffers → Bytes → ℤ → Bool → Bytes
header type buffers nsp pack_id has_message =
    show_int type
    ++ ((if ltb 0 (length buffers) then to_string (length buffers) ++ b'-' ∷ [] else [])
        ++ ((if ltb 0 (length nsp) && not (bytes_eq nsp (codes "/"))
              then nsp ++ (if has_message || is_nonneg pack_id then b',' ∷ [] else [])
              else [])
            ++ (if is_nonneg pack_id then show_int pack_id else [])))

-- `frame+'0'` as a `char`.
abbrev pub frame_char : ℤ → ℕ
frame_char (pos n) = (n + b'0') % 256
frame_char (negsuc n) = (b'0' + 255 - n % 256) % 256

-- The message of the packet as a JSON text, with its attachments.
unfoldable pub accept_json : Codec → Ptr → Buffers → Result (Bytes × Buffers)
accept_json c nullptr bs = ok ([], bs)
accept_json c (ptr m) bs = accept_message m bs >>= λ (v, bs'). ok (c.json_write v, bs')

abbrev pub has_message : Ptr → Bool
has_message nullptr = false
has_message (ptr m) = true

-- `accept`: the packet with its final type, the text, the attachments, and whether there are any.
unfoldable pub accept : Codec → Packet → Bytes → Buffers → Result (Packet × Bytes × Buffers × Bool)
accept c p payload bs =
    let start = payload ++ frame_char p.frame ∷ [] in
    if is_pos p.frame frame_message
    then (accept_json c p.message bs >>= λ (json, bs').
        let type = binary_type (determined p.type) (ltb 0 (length bs')) in
        ok (
          record p { type = type },
          start ++ (header type bs' p.nsp p.pack_id (has_message p.message) ++ json),
          bs',
          ltb 0 (length bs'),
        ))
    else ok (p, start, bs, false)
