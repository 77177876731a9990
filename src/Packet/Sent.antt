-- ===== src/Packet/Sent.antt =====
-- The packet that the constructor of an event or an acknowledgement builds, and its text.
use taquin_client_project.Base.{
  ◌+◌, ◌≡◌, refl, ℤ, pos, is_nonneg, Bytes, Bool, true, false, not, ◌||◌, if◌then◌else◌, [], ◌∷◌,
  ◌++◌, length, ltb, Bool-cases, inl, inr,
}
use taquin_client_project.Result.{ok}
use taquin_client_project.Message.{Message, ptr}
use taquin_client_project.Json.{Buffers, Value, accept_message}
use taquin_client_project.Packet.{
  Packet, Codec, message_packet, header, accept, accept_json, determined, binary_type, type_event,
  type_ack, type_undetermined,
}
use taquin_client_project.Packet.Head.{final_type}

-- The packet that the constructor builds.
abbrev pub unsent : Bool → Bytes → Message → ℤ → Packet
unsent is_ack nsp m i = record {
  frame = pos 4;
  type = pos ((if is_ack then type_ack else type_event) + type_undetermined);
  nsp = nsp;
  pack_id = i;
  message = ptr m;
  pending = 0;
  buffers = [];
}

pub message_packet-unsent :
    (is_ack : Bool) (nsp : Bytes) (m : Message) (i : ℤ) (p : Packet)
    → message_packet nsp (ptr m) i is_ack ≡ ok p
    → unsent is_ack nsp m i ≡ p
unfolding message_packet
message_packet-unsent is_ack nsp m i p e = elim (Bool-cases (not is_ack || is_nonneg i)) [
  | inl h ↦ cc (rw h at e)
  | inr h ↦ cc (rw h at e)
]

binary_type-final :
    (is_ack has_binary : Bool)
    → binary_type
        (determined (pos ((if is_ack then type_ack else type_event) + type_undetermined)))
        has_binary
      ≡ pos (final_type is_ack has_binary)
unfolding binary_type determined
binary_type-final true has_binary = refl
binary_type-final false has_binary = refl

pub accept-unsent :
    (c : Codec) (is_ack has_binary : Bool) (nsp : Bytes) (m : Message) (i : ℤ) (v : Value)
    (bs : Buffers)
    → accept_message m [] ≡ ok (v, bs)
    → ltb 0 (length bs) ≡ has_binary
    → accept c (unsent is_ack nsp m i) [] []
      ≡ ok (
        record (unsent is_ack nsp m i) { type = pos (final_type is_ack has_binary) },
        b'4' ∷ (header (pos (final_type is_ack has_binary)) bs nsp i true ++ c.json_write v),
        bs,
        has_binary,
      )
unfolding accept accept_json
accept-unsent c is_ack has_binary nsp m i v bs e h = rw (e, h, binary_type-final is_ack has_binary)
