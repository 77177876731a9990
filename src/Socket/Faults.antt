-- ===== src/Socket/Faults.antt =====
-- Texts of events and acknowledgements that carry no JSON text.
use taquin_client_project.Base.{
  ℕ, Bytes, codes, Bool, true, false, if◌then◌else◌, [], ◌∷◌, ◌≡◌, refl, ◌∙◌, Avoids, bytes_eq,
}
use taquin_client_project.Result.{ok, err, null_pointer}
use taquin_client_project.Packet.{Packet, Codec, type_event, type_ack, empty_packet, get_type}
use taquin_client_project.Packet.Parse.{is_body_start, parse, parse_body, parse_head, at_pos}
use taquin_client_project.Packet.Search.{find_first_of-none}
use taquin_client_project.Packet.Head.{opened, parse-continue, is_binary_message-cons}
use taquin_client_project.Packet.Manager.{Manager, put_payload, put_text}
use taquin_client_project.Packet.Receive.{text_payload}
use taquin_client_project.Socket.{Socket, Event}
use taquin_client_project.Socket.Messages.{
  on_message_packet, on_type, on_event_packet, on_ack_packet,
}

-- The type byte of an event or of an acknowledgement.
abbrev type_of : Bool → ℕ
type_of is_ack = if is_ack then type_ack else type_event

abbrev type_byte : Bool → ℕ
type_byte is_ack = if is_ack then b'3' else b'2'

parse-bare :
    (c : Codec) (is_ack : Bool) (rest : Bytes)
    → Avoids is_body_start rest
    → parse c empty_packet (b'4' ∷ type_byte is_ack ∷ rest)
      ≡ ok (opened (type_of is_ack) (codes "/") 0, false)
unfolding parse_head empty_packet parse_body
parse-bare c true rest a =
    parse-continue c empty_packet (b'4' ∷ b'3' ∷ rest) (at_pos (opened 3 [] 0) 2)
      (is_binary_message-cons b'4' _) refl
    ∙ rw (find_first_of-none is_body_start (codes "43") rest 2 refl a, parse_body)
parse-bare c false rest a =
    parse-continue c empty_packet (b'4' ∷ b'2' ∷ rest) (at_pos (opened 2 [] 0) 2)
      (is_binary_message-cons b'4' _) refl
    ∙ rw (find_first_of-none is_body_start (codes "42") rest 2 refl a, parse_body)

on_message_packet-bare :
    (invoke : ℕ → Event → Socket → Event × Socket) (is_ack : Bool) (s : Socket)
    → s.attached ≡ true
    → s.nsp ≡ codes "/"
    → on_message_packet invoke (opened (type_of is_ack) (codes "/") 0) s ≡ err null_pointer
unfolding on_message_packet on_type on_event_packet on_ack_packet get_type bytes_eq
on_message_packet-bare invoke true s a n = rw (a, n)
on_message_packet-bare invoke false s a n = rw (a, n)

-- A text of an event or an acknowledgement (after "42" or "43") in which no byte starts a JSON text or a
-- namespace, such as "42" alone, is decoded to a packet for the root namespace without a message; and
-- the socket of that namespace, while it has a client, then dereferences a null pointer, whatever
-- listeners are bound.
pub bare_text_faults :
    (c : Codec) (r : Manager) (invoke : ℕ → Event → Socket → Event × Socket) (is_ack : Bool)
    (rest : Bytes) (s : Socket)
    → r.has_decode_callback ≡ true
    → Avoids is_body_start rest
    → s.attached ≡ true
    → s.nsp ≡ codes "/"
    → (p : Packet) × (put_payload c r (b'4' ∷ type_byte is_ack ∷ rest) ≡ ok (r, p ∷ []))
      × (on_message_packet invoke p s ≡ err null_pointer)
unfolding put_text
bare_text_faults c r invoke is_ack rest s d avoids a n = (
  opened (type_of is_ack) (codes "/") 0,
  rw (text_payload c r (type_byte is_ack ∷ rest), parse-bare c is_ack rest avoids, d),
  on_message_packet-bare invoke is_ack s a n,
)
