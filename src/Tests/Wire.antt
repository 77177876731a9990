-- ===== src/Tests/Wire.antt =====
-- A photo sent as an event with one attachment, through the JSON values and the packets.
use taquin_client_project.Base.{
  to_int32, ℕ, pos, codes, true, false, none, some, [], ◌∷◌, ◌≡◌, refl, arith, read_decimal,
  read_decimal-to_string,
}
use taquin_client_project.Result.{ok, err, null_pointer}
use taquin_client_project.Message.{Message, ptr, string, binary, array, nil, cons}
use taquin_client_project.Json.{
  Value, json_string, json_array, json_object, json_int64, json_bool, value, no_values, member,
  no_members, accept_message, accept_binary, from_json,
}
use taquin_client_project.Json.WellFormed.{frames}
use taquin_client_project.Json.RoundTrip.{from_json-accept_message}
use taquin_client_project.Packet.{Codec, Packet, message_packet}
use taquin_client_project.Packet.Body.{CastsInt, some_id, json_text}
use taquin_client_project.Packet.Head.{CastsUnsigned, named}
use taquin_client_project.Packet.Manager.{Manager, put_payload}
use taquin_client_project.Packet.RoundTrip.{Carries, Transmits, delivered, put_all-encode}
use taquin_client_project.Base.SortedMap.{find, erase, nat_key, bytes_key}
use taquin_client_project.Base.{List}
use taquin_client_project.Message.{Ptr}
use taquin_client_project.Base.{bytes_eq}
use taquin_client_project.Message.Lists.{to_event_message, to_array_message}
use taquin_client_project.Packet.Manager.{Payload, encode, put_all}
use taquin_client_project.Packet.RoundTrip.{payloads}
use taquin_client_project.Socket.{call_ack}
use taquin_client_project.Socket.Delivery.{answered, event_reaches_listener, ack_reaches_callback}
use taquin_client_project.Socket.{Socket, Event, create}
use taquin_client_project.Socket.Messages.{on_message_packet}
use taquin_client_project.Socket.Faults.{bare_text_faults}

abbrev photo : Message
photo = array (cons (ptr (string (codes "photo"))) (cons (ptr (binary (codes "xy"))) nil))

-- What the message becomes on the wire, where n attachments come before it.
abbrev photo_value : ℕ → Value
photo_value n = json_array (
    value (json_string (codes "photo")) (
      value
        (json_object (
          member (codes "_placeholder") (json_bool true)
            (member (codes "num") (json_int64 (pos n)) no_members)))
        no_values))

from_json-accept_message_example :
    (v : Value) × (accept_message photo (frames (codes "a" ∷ []))
      ≡ ok (v, frames (codes "a" ∷ codes "xy" ∷ [])))
    × (from_json v (codes "a" ∷ codes "xy" ∷ []) ≡ ok (ptr photo))
from_json-accept_message_example =
    from_json-accept_message photo (codes "a" ∷ []) [] (tt, (tt, tt)) (omega arith)

-- A codec that knows the one document, and reads decimal numbers.
abbrev pub one_document : Codec
one_document = record {
  json_write = λ v. codes "[\"photo\",{\"_placeholder\":true,\"num\":0}]";
  json_parse = λ s. photo_value 0;
  cast_unsigned = read_decimal;
  cast_int = λ s. elim (read_decimal s) [ none ↦ none | some n ↦ some (pos n) ];
}

pub reads_int : CastsInt one_document
reads_int n h = rw (one_document, read_decimal-to_string n) refl

pub reads_unsigned : CastsUnsigned one_document
reads_unsigned n h = read_decimal-to_string n

accepts_photo : accept_message photo [] ≡ ok (photo_value 0, frames (codes "xy" ∷ []))
unfolding accept_message accept_binary to_int32
accepts_photo = refl

Carries-photo : Carries one_document photo
Carries-photo v bs e = (json_text b'[' _ refl, cc (accepts_photo, e))

abbrev pub ready : Manager
ready = record { partial_packet = none; has_decode_callback = true; has_encode_callback = true }

abbrev photo_packet : Packet
photo_packet = record {
  frame = pos 4;
  type = pos 18;
  nsp = codes "/chat";
  pack_id = pos 7;
  message = ptr photo;
  pending = 0;
  buffers = [];
}

put_all-encode_example :
    Transmits one_document ready ready photo_packet
      (record photo_packet { type = pos 5 })
      (delivered false (codes "/chat") (pos 7) photo)
put_all-encode_example =
    put_all-encode one_document ready ready false (codes "/chat") (codes "/chat") photo (pos 7)
      photo_packet reads_int reads_unsigned Carries-photo refl refl refl
      (named b'c' (codes "hat") (refl, (refl, (refl, (refl, tt))))) (some_id 7 (omega arith))
      (tt, (tt, tt)) (omega arith) (unfold message_packet in refl)

abbrev root_socket : Socket
root_socket = create true false (codes "/") 0

-- A listener that does nothing.
abbrev pub ignore : ℕ → Event → Socket → Event × Socket
ignore l ev s = (ev, s)

bare_text_faults_example :
    (p : Packet) × (put_payload one_document ready (codes "42") ≡ ok (ready, p ∷ []))
    × (on_message_packet ignore p root_socket ≡ err null_pointer)
unfolding create
bare_text_faults_example =
    bare_text_faults one_document ready ignore false [] root_socket refl tt refl refl

-- The socket of the chat, with a listener for photos and a callback.
abbrev pub chat_socket : Socket
chat_socket = record {
  attached = true;
  connected = true;
  nsp = codes "/chat";
  acks = (7, 5) ∷ [];
  bindings = (codes "photo", 3) ∷ [];
  error_listener = none;
  timer = false;
  queue = [];
  next_id = 8;
  log = [];
}

abbrev pub picture : List Ptr
picture = ptr (binary (codes "xy")) ∷ []

pub Carries-event : Carries one_document (to_event_message (codes "photo") picture)
unfolding to_event_message
Carries-event = Carries-photo

event_reaches_listener_example :
    (p' q : Packet) × (calls : List Payload) × (encode one_document ready photo_packet false
      ≡ ok (p', calls))
    × (put_all one_document ready (payloads calls)
        ≡ ok (record ready { partial_packet = none }, q ∷ []))
    × (on_message_packet ignore q chat_socket
        ≡ answered ignore 3 (codes "/chat") (codes "photo") picture (pos 7) chat_socket)
unfolding to_event_message message_packet find bytes_eq
event_reaches_listener_example =
    event_reaches_listener one_document ready ready ignore reads_int reads_unsigned refl refl refl
      (codes "/chat") (codes "/chat") (codes "photo") picture (pos 7) photo_packet 3 chat_socket
      Carries-event (named b'c' (codes "hat") (refl, (refl, (refl, (refl, tt)))))
      (some_id 7 (omega arith)) (tt, tt) (omega arith) refl refl refl refl

-- The same array as the reply of an acknowledgement.
abbrev pub reply : List Ptr
reply = ptr (string (codes "photo")) ∷ picture

pub Carries-reply : Carries one_document (to_array_message reply)
unfolding to_array_message
Carries-reply = Carries-photo

ack_reaches_callback_example :
    (p' q : Packet) × (calls : List Payload) × (encode one_document ready
        (record photo_packet { type = pos 19 })
        false
      ≡ ok (p', calls))
    × (put_all one_document ready (payloads calls)
        ≡ ok (record ready { partial_packet = none }, q ∷ []))
    × (on_message_packet ignore q chat_socket
        ≡ ok (record chat_socket { acks = erase 7 chat_socket.acks; log = call_ack 5 reply ∷ [] }))
unfolding to_array_message message_packet find
ack_reaches_callback_example =
    ack_reaches_callback one_document ready ready ignore reads_int reads_unsigned refl refl refl
      (codes "/chat") (codes "/chat") reply 7 5 (record photo_packet { type = pos 19 }) chat_socket
      Carries-reply (named b'c' (codes "hat") (refl, (refl, (refl, (refl, tt))))) (omega arith)
      (tt, (tt, tt)) (omega arith) refl refl refl refl
