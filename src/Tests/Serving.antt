-- ===== src/Tests/Serving.antt =====
-- The client program on the wire: "start" and its reply.
use taquin_client_project.Base.{
  ◌≡◌, refl, arith, pos, negsuc, codes, bytes_eq, Bytes, if◌then◌else◌, true, false, none, some,
  List, [], ◌∷◌, ◌++◌, read_decimal, read_decimal-to_string,
}
use taquin_client_project.Base.SortedMap.{find, bytes_key}
use taquin_client_project.Result.{ok}
use taquin_client_project.Message.{Message, ptr}
use taquin_client_project.Message.Lists.{from_text, to_event_message}
use taquin_client_project.Json.{Value, json_string, json_array, value, no_values, accept_message}
use taquin_client_project.Packet.{Codec, Packet, message_packet}
use taquin_client_project.Packet.Body.{CastsInt, json_text}
use taquin_client_project.Packet.Head.{CastsUnsigned}
use taquin_client_project.Packet.Manager.{Payload, encode, put_all}
use taquin_client_project.Packet.RoundTrip.{Carries, delivered, payloads}
use taquin_client_project.Socket.{Socket, on}
use taquin_client_project.Client.{Client, new_client, con_opened, dispatch_sends}
use taquin_client_project.Client.Wire.{heard, patience, on_messages}
use taquin_client_project.Client.Answering.{IsSpeaker, IsCarried, rested}
use taquin_client_project.App.{start, on_start}
use taquin_client_project.App.Wired.{bind_login, bind_events, invoke_app}
use taquin_client_project.App.Served.{reply_on_wire}
use taquin_client_project.Tests.Application.{player}
use taquin_client_project.Tests.Wire.{ready}

-- A library that knows two documents.
abbrev asked_value : Value
asked_value = json_array (value (json_string (codes "start")) no_values)

abbrev answer_value : Value
answer_value =
    json_array
      (value (json_string (codes "start-request")) (value (json_string (codes "p1")) no_values))

abbrev write : Value → Bytes
write (json_array (value _ no_values)) = codes "[\"start\"]"
write v = codes "[\"start-request\",\"p1\"]"

abbrev two_documents : Codec
two_documents = record {
  json_write = write;
  json_parse = λ s. if bytes_eq s (codes "[\"start\"]") then asked_value else answer_value;
  cast_unsigned = read_decimal;
  cast_int = λ s. elim (read_decimal s) [ none ↦ none | some n ↦ some (pos n) ];
}

reads_int : CastsInt two_documents
reads_int n h = rw (two_documents, read_decimal-to_string n) refl

reads_unsigned : CastsUnsigned two_documents
reads_unsigned n h = read_decimal-to_string n

abbrev asked : Message
asked = to_event_message (codes "start") []

abbrev answer : Message
answer = to_event_message (codes "start-request") (from_text (codes "p1"))

accepts_asked : accept_message asked [] ≡ ok (asked_value, [])
unfolding accept_message to_event_message
accepts_asked = refl

accepts_answer : accept_message answer [] ≡ ok (answer_value, [])
unfolding accept_message to_event_message from_text
accepts_answer = refl

Carries-asked : Carries two_documents asked
unfolding bytes_eq
Carries-asked v bs e =
    let same : asked_value ≡ v = cc (accepts_asked, e) in rw (← same) (json_text b'[' _ refl, refl)

Carries-answer : Carries two_documents answer
unfolding bytes_eq
Carries-answer v bs e =
    let same : answer_value ≡ v = cc (accepts_answer, e) in
    rw (← same) (json_text b'[' _ refl, refl)

asked-IsCarried : IsCarried two_documents asked
unfolding to_event_message
asked-IsCarried = record { carries = Carries-asked; well_formed = (tt, tt); small = omega arith }

answer-IsCarried : IsCarried two_documents answer
unfolding to_event_message from_text
answer-IsCarried = record {
  carries = Carries-answer;
  well_formed = (tt, (tt, tt));
  small = omega arith;
}

abbrev socket : Socket
socket = record {
  attached = true;
  connected = true;
  nsp = codes "/";
  acks = [];
  bindings = [];
  error_listener = none;
  timer = false;
  queue = [];
  next_id = 0;
  log = [];
}

abbrev bound : Socket
bound = bind_login socket

abbrev serving : Client
serving = record (new_client 0) {
  con_state = con_opened;
  sockets = (codes "/", bind_events bound) ∷ [];
}

serving-IsSpeaker : IsSpeaker (codes "/") serving (bind_events bound)
unfolding new_client bind_login bind_events find bytes_eq on
serving-IsSpeaker = record {
  encodes = refl;
  decodes = refl;
  idle = refl;
  up = refl;
  low = omega arith;
  stored = refl;
  named = refl;
  ready = record { attached = refl; connected = refl; queue = refl; log = refl };
}

abbrev asked_packet : Packet
asked_packet = record {
  frame = pos 4;
  type = pos 18;
  nsp = codes "/";
  pack_id = negsuc 0;
  message = ptr asked;
  pending = 0;
  buffers = [];
}

reply_on_wire_example :
    (p' : Packet) × (calls replies : List Payload) × (c' : Client) × (encode two_documents ready
        asked_packet false
      ≡ ok (p', calls))
    × (on_messages two_documents (invoke_app player) (payloads calls) serving ≡ ok c')
    × (c'.log
        ≡ (serving.log ++ heard (patience serving) (payloads calls)) ++ dispatch_sends replies)
    × (put_all two_documents ready (payloads replies)
        ≡ ok (
          rested ready,
          delivered false
                (codes "/")
                (negsuc 0)
                (to_event_message (codes "start-request") (from_text (codes "p1")))
              ∷ [],
        ))
unfolding message_packet on_start
reply_on_wire_example =
    reply_on_wire two_documents reads_int reads_unsigned player player start _
      (codes "start-request") (codes "p1") [] serving bound ready asked_packet (λ e. cc)
      serving-IsSpeaker refl refl refl asked-IsCarried answer-IsCarried refl refl refl
