-- ===== src/Json.antt =====
-- taquin-client-cpp/libs/src/internal/sio_packet.cpp, lines 23 to 208: messages to JSON values and back.
-- `Value` is what a RapidJSON document holds; the text of a document is not in this file.
pub mod Sorted
pub mod WellFormed
pub mod RoundTrip
use taquin_client_project.Base.{
  ℕ, ◌^◌, ℤ, pos, ltb, ltb_ℤ, leb, pos_part, neg_part, is_nonneg, to_int32, ◌-◌, Bytes, codes,
  bytes_eq, Bool, true, false, ◌&&◌, Option, none, some, List, [], ◌∷◌, ◌++◌, length, get_elem?,
  if◌then◌else◌,
}
use taquin_client_project.Result.{Result, ok, err, assertion, null_pointer, ◌>>=◌}
use taquin_client_project.Message.{
  Message, Ptr, Ptrs, Fields, nullptr, ptr, nil, cons, end, field, integer, double, string, binary,
  array, object, boolean, null,
}
use taquin_client_project.Message.Objects.{insert}

abbrev pub Buffers : Type 0
Buffers = List Bytes

mutual
  pub data Value : Type 0 where
    json_null : Value
    json_bool : Bool → Value
    json_int64 : ℤ → Value
    -- a whole number that an `int64_t` does not hold
    json_uint64 : ℕ → Value
    json_double : ℕ → Value
    json_string : Bytes → Value
    json_array : Values → Value
    json_object : Members → Value

  pub data Values : Type 0 where
    no_values : Values
    value : Value → Values → Values

  -- in the order of the document, a name as often as it occurs there
  pub data Members : Type 0 where
    no_members : Members
    member : Bytes → Value → Members → Members

abbrev pub bin_place_holder : Bytes
bin_place_holder = codes "_placeholder"

-- `packet::frame_message`, the first byte of an attachment.
abbrev pub frame_message : ℕ
frame_message = 4

-- `SetInt((int)buffers.size())`; the code appends the frame byte and the bytes to `buffers`.
unfoldable pub accept_binary : Bytes → Buffers → Value × Buffers
accept_binary b buffers = (
  json_object (
      member bin_place_holder (json_bool true)
        (member (codes "num") (json_int64 (to_int32 (pos (length buffers)))) no_members)),
  buffers ++ (frame_message ∷ b) ∷ [],
)

-- `buffers` is passed from call to call, as the code passes it by reference.
unfoldable mutual
  pub accept_message : Message → Buffers → Result (Value × Buffers)
  accept_message (integer v) bs = ok (json_int64 v, bs)
  accept_message (double v) bs = ok (json_double v, bs)
  accept_message (string v) bs = ok (json_string v, bs)
  accept_message (boolean v) bs = ok (json_bool v, bs)
  accept_message null bs = ok (json_null, bs)
  accept_message (binary v) bs = ok (accept_binary v bs)
  accept_message (array v) bs = accept_items v bs >>= λ (vs, bs'). ok (json_array vs, bs')
  accept_message (object v) bs = accept_fields v bs >>= λ (ms, bs'). ok (json_object ms, bs')

  pub accept_ptr : Ptr → Buffers → Result (Value × Buffers)
  accept_ptr nullptr bs = err null_pointer
  accept_ptr (ptr m) bs = accept_message m bs

  pub accept_items : Ptrs → Buffers → Result (Values × Buffers)
  accept_items nil bs = ok (no_values, bs)
  accept_items (cons p ps) bs =
      accept_ptr p bs >>= λ (v, bs'). accept_items ps bs' >>= λ (vs, bs''). ok (value v vs, bs'')

  pub accept_fields : Fields → Buffers → Result (Members × Buffers)
  accept_fields end bs = ok (no_members, bs)
  accept_fields (field k p fs) bs = accept_ptr p bs >>= λ (v, bs').
      accept_fields fs bs' >>= λ (ms, bs''). ok (member k v ms, bs'')

unfoldable pub find_member : Bytes → Members → Option Value
find_member k no_members = none
find_member k (member j v ms) = if bytes_eq j k then some v else find_member k ms

-- `mem_it!=value.MemberEnd() && mem_it->value.GetBool()`; `GetBool` asserts a Boolean.
abbrev pub json_get_bool : Value → Result Bool
json_get_bool (json_bool b) = ok b
json_get_bool _ = err assertion

unfoldable pub is_place_holder : Members → Result Bool
is_place_holder ms = elim (find_member bin_place_holder ms) [
  | none ↦ ok false
  | some v ↦ json_get_bool v
]

-- `GetInt` asserts that an `int` holds the value.
abbrev pub json_get_int : Value → Result ℤ
json_get_int (json_int64 v) =
    if leb (pos_part v) (2 ^ 31 - 1) && leb (neg_part v) (2 ^ 31) then ok v else err assertion
json_get_int _ = err assertion

-- `value["num"]` asserts that the member is there.
unfoldable pub json_num : Members → Result ℤ
json_num ms = elim (find_member (codes "num") ms) [ none ↦ err assertion | some v ↦ json_get_int v ]

-- `num >= 0 && num < static_cast<int>(buffers.size())`; any other index gives an empty pointer.
unfoldable pub attachment : ℤ → Buffers → Ptr
attachment num bs =
    if is_nonneg num && ltb_ℤ num (to_int32 (pos (length bs)))
    then elim (get_elem? bs (pos_part num)) [ none ↦ nullptr | some b ↦ ptr (binary b) ]
    else nullptr

unfoldable mutual
  pub from_json : Value → Buffers → Result Ptr
  from_json (json_int64 v) bs = ok (ptr (integer v))
  from_json (json_double v) bs = ok (ptr (double v))
  from_json (json_string v) bs = ok (ptr (string v))
  from_json (json_array vs) bs = from_items vs bs >>= λ ps. ok (ptr (array ps))
  from_json (json_object ms) bs = is_place_holder ms >>= λ held.
      if held
      then (json_num ms >>= λ num. ok (attachment num bs))
      else (from_members ms bs end >>= λ fs. ok (ptr (object fs)))
  from_json (json_bool v) bs = ok (ptr (boolean v))
  from_json json_null bs = ok (ptr null)
  from_json (json_uint64 v) bs = ok nullptr

  pub from_items : Values → Buffers → Result Ptrs
  from_items no_values bs = ok nil
  from_items (value v vs) bs = from_json v bs >>= λ p. from_items vs bs >>= λ ps. ok (cons p ps)

  -- `get_map()[key] = from_json(...)` for each member in turn
  pub from_members : Members → Buffers → Fields → Result Fields
  from_members no_members bs fs = ok fs
  from_members (member k v ms) bs fs = from_json v bs >>= λ p. from_members ms bs (insert k p fs)
