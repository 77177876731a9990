-- ===== src/Packet/Manager.antt =====
-- `packet_manager` of sio_packet.cpp. Its callbacks are given by whether they are set; what they
-- are called with is the result.
use taquin_client_project.Base.{
  Bytes, Bool, true, false, ◌||◌, if◌then◌else◌, Option, none, some, List, [], ◌∷◌, ◌++◌,
}
use taquin_client_project.Result.{Result, ok, ◌>>=◌}
use taquin_client_project.Json.{Buffers}
use taquin_client_project.Packet.{
  Packet, Codec, accept, empty_packet, is_text_message, is_binary_message,
}
use taquin_client_project.Packet.Parse.{parse, parse_buffer}

pub record Manager : Type 0 where
  pub partial_packet : Option Packet
  pub has_decode_callback : Bool
  pub has_encode_callback : Bool

unfoldable pub set_decode_callback : Manager → Bool → Manager
set_decode_callback m callback = record m { has_decode_callback = callback }

unfoldable pub set_encode_callback : Manager → Bool → Manager
set_encode_callback m callback = record m { has_encode_callback = callback }

unfoldable pub reset : Manager → Manager
reset m = record m { partial_packet = none }

-- A call of the encode callback: whether the payload is binary, and the payload.
abbrev pub Payload : Type 0
Payload = Bool × Bytes

abbrev pub binary_payloads : Buffers → List Payload
binary_payloads [] = []
binary_payloads (b ∷ bs) = (true, b) ∷ binary_payloads bs

-- `encode`: the text first, then each attachment, for the overriding callback or the manager's own.
-- The packet is passed by reference and keeps its final type.
unfoldable pub encode : Codec → Manager → Packet → Bool → Result (Packet × List Payload)
encode c m p override = accept c p [] [] >>= λ (p', text, buffers, has_binary).
    let calls =
      if has_binary then (false, text) ∷ binary_payloads buffers else (false, text) ∷ [] in
    ok (p', if override || m.has_encode_callback then calls else [])

abbrev pub decoded : Manager → Packet → List Packet
decoded m p = if m.has_decode_callback then p ∷ [] else []

unfoldable pub put_text : Codec → Manager → Bytes → Result (Manager × List Packet)
put_text c m payload = parse c empty_packet payload >>= λ (p, more).
    ok (if more then (record m { partial_packet = some p }, []) else (m, decoded m p))

unfoldable pub put_binary : Codec → Manager → Bytes → Result (Manager × List Packet)
put_binary c m payload = elim m.partial_packet [
  | none ↦ ok (m, [])
  | some q ↦ parse_buffer c q payload >>= λ (p, more). ok (
      if more
      then (record m { partial_packet = some p }, [])
      else (record m { partial_packet = none }, decoded m p))
]

-- What is neither a text nor a binary message is decoded at once, whatever `parse` returns.
unfoldable pub put_other : Codec → Manager → Bytes → Result (Manager × List Packet)
put_other c m payload = parse c empty_packet payload >>= λ (p, more). ok (m, decoded m p)

-- The packets are those that the decode callback is called with.
unfoldable pub put_payload : Codec → Manager → Bytes → Result (Manager × List Packet)
put_payload c m payload =
    if is_text_message payload
    then put_text c m payload
    else if is_binary_message payload
    then put_binary c m payload
    else put_other c m payload

-- Payloads in the order in which they arrive.
unfoldable pub put_all : Codec → Manager → List Bytes → Result (Manager × List Packet)
put_all c m [] = ok (m, [])
put_all c m (s ∷ rest) =
    put_payload c m s >>= λ (m', ps). put_all c m' rest >>= λ (m'', qs). ok (m'', ps ++ qs)
