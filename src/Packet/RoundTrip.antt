-- ===== src/Packet/RoundTrip.antt =====
-- `packet_manager::encode` at one end and `put_payload` at the other.
use taquin_client_project.Base.{
  ℕ, suc, ◌<◌, ◌^◌, ◌≡◌, refl, ap, sym, subst, arith, ℤ, pos, Bytes, Bool, true, false, none, List,
  [], ◌∷◌, ◌++◌, length, append-nil, ltb,
}
use taquin_client_project.Result.{ok}
use taquin_client_project.Message.{Message, ptr}
use taquin_client_project.Json.{Buffers, Value, accept_message, from_json, frame_message}
use taquin_client_project.Json.WellFormed.{WellFormed, binaries, frames}
use taquin_client_project.Json.RoundTrip.{from_json-accept_message}
use taquin_client_project.Packet.{Packet, Codec, message_packet, header}
use taquin_client_project.Packet.Manager.{
  Manager, Payload, binary_payloads, encode, put_payload, put_text, put_all,
}
use taquin_client_project.Packet.Body.{PackId, CastsInt, JsonText}
use taquin_client_project.Packet.Receive.{
  Completes, completes, silent, put_all-Completes, frames-Completes, holding, complete,
  parsed-plain, parsed-counted, text_payload,
}
use taquin_client_project.Packet.Head.{Nsp, CastsUnsigned, final_type, parse-plain, parse-counted}
use taquin_client_project.Packet.Sent.{unsent, message_packet-unsent, accept-unsent}

abbrev pub payloads : List Payload → List Bytes
payloads [] = []
payloads ((is_binary, s) ∷ rest) = s ∷ payloads rest

payloads-binary : (bs : Buffers) → payloads (binary_payloads bs) ≡ bs
payloads-binary [] = refl
payloads-binary (b ∷ bs) = ap (◌∷◌ b) (payloads-binary bs)

-- The packet that the receiver decodes.
abbrev pub delivered : Bool → Bytes → ℤ → Message → Packet
delivered is_ack nsp i m = record {
  frame = pos 4;
  type = pos (final_type is_ack (ltb 0 (length (binaries m))));
  nsp = nsp;
  pack_id = i;
  message = ptr m;
  pending = 0;
  buffers = [];
}

-- What is asked of the JSON library for one message: the text of its value starts like a JSON text of
-- an object, an array or a string, and is parsed to that value.
abbrev pub Carries : Codec → Message → Type 0
Carries c m =
    (v : Value) (bs : Buffers)
    → accept_message m [] ≡ ok (v, bs)
    → JsonText (c.json_write v) × (c.json_parse (c.json_write v) ≡ v)

length-frames : (bs : List Bytes) → length (frames bs) ≡ length bs
length-frames [] = refl
length-frames (b ∷ bs) = ap suc (length-frames bs)

-- What one side sends and the other decodes: encoding p leaves p', and its payloads, put in order,
-- make the other side decode q alone, at the last of them, and keep nothing.
abbrev pub Transmits : Codec → Manager → Manager → Packet → Packet → Packet → Type 0
Transmits c sender receiver p p' q =
    (calls : List Payload) × (encode c sender p false ≡ ok (p', calls))
    × (put_all c receiver (payloads calls) ≡ ok (record receiver { partial_packet = none }, q ∷ []))
    × Completes c (record receiver { partial_packet = none }) q receiver (payloads calls)

Transmits-Completes :
    (c : Codec) (sender receiver : Manager) (p p' q : Packet) (calls : List Payload)
    → encode c sender p false ≡ ok (p', calls)
    → Completes c (record receiver { partial_packet = none }) q receiver (payloads calls)
    → Transmits c sender receiver p p' q
Transmits-Completes c sender receiver p p' q calls e h = (
  calls,
  e,
  put_all-Completes c (record receiver { partial_packet = none }) q receiver (payloads calls) h,
  h,
)

module _ (c : Codec) (is_ack : Bool) (nsp nsp' : Bytes) (m : Message) (i : ℤ) (ns : Nsp nsp nsp')
    (id : PackId i) (casts : CastsInt c) (counts : CastsUnsigned c) where
  module _ (sender receiver : Manager) (sends : sender.has_encode_callback ≡ true)
      (decodes : receiver.has_decode_callback ≡ true) (idle : receiver.partial_packet ≡ none)
      (v : Value) (start : JsonText (c.json_write v))
      (back : c.json_parse (c.json_write v) ≡ v) where
    sent_as : Bool → Packet
    sent_as has_binary = record (unsent is_ack nsp m i) {
      type = pos (final_type is_ack has_binary);
    }

    Transmits-plain :
        accept_message m [] ≡ ok (v, [])
        → from_json v [] ≡ ok (ptr m)
        → binaries m ≡ []
        → Transmits c sender receiver
            (unsent is_ack nsp m i)
            (sent_as (ltb 0 (length (binaries m))))
            (delivered is_ack nsp' i m)
    unfolding encode put_text sent_as
    Transmits-plain e f bins =
        let text : Bytes = header (pos (final_type is_ack false)) [] nsp i true ++ c.json_write v in
        Transmits-Completes c sender receiver (unsent is_ack nsp m i)
          (sent_as (ltb 0 (length (binaries m)))) (delivered is_ack nsp' i m)
          ((false, b'4' ∷ text) ∷ [])
          (rw (accept-unsent c is_ack false nsp m i v [] e refl, sends, bins))
          (completes receiver (b'4' ∷ text) (
            rw (
              text_payload c receiver text,
              parse-plain c is_ack nsp nsp' (c.json_write v) i ns id casts start,
              parsed-plain c is_ack nsp' (c.json_write v) i (ptr m) (rw back f),
              decodes,
              bins,
              ← idle,
            )))

    -- The text alone, where attachments have to follow.
    put-counted :
        (b : Bytes) (rest : List Bytes)
        → length (b ∷ rest) < 2 ^ 32
        → put_payload c receiver (
            b'4'
            ∷ (header (pos (final_type is_ack true)) (frames (b ∷ rest)) nsp i true
                ++ c.json_write v))
          ≡ ok (
            holding c
                (final_type is_ack true)
                nsp'
                i
                (c.json_write v)
                (ptr m)
                receiver
                (suc (length rest))
                [],
            [],
          )
    unfolding put_text
    put-counted b rest small =
        let json : Bytes = c.json_write v in
        let few : length (frames (b ∷ rest)) < 2 ^ 32 = omega (arith, length-frames rest) in
        rw (
          text_payload c receiver
              (header (pos (final_type is_ack true)) (frames (b ∷ rest)) nsp i true ++ json),
          parse-counted c is_ack (frame_message ∷ b) (frames rest) nsp nsp' json i ns id casts
              counts start few,
          parsed-counted c is_ack nsp' json i (length (frames (b ∷ rest))),
          length-frames rest,
        )

    Transmits-counted :
        (b : Bytes) (rest : List Bytes)
        → accept_message m [] ≡ ok (v, frames (b ∷ rest))
        → from_json v (b ∷ rest) ≡ ok (ptr m)
        → binaries m ≡ b ∷ rest
        → length (b ∷ rest) < 2 ^ 32
        → Transmits c sender receiver
            (unsent is_ack nsp m i)
            (sent_as (ltb 0 (length (binaries m))))
            (delivered is_ack nsp' i m)
    unfolding encode sent_as complete
    Transmits-counted b rest e f bins small =
        let json : Bytes = c.json_write v in
        let type : ℕ = final_type is_ack true in
        let text : Bytes = header (pos type) (frames (b ∷ rest)) nsp i true ++ json in
        let has : ltb 0 (length (binaries m)) ≡ true = rw bins (ground arith) in
        Transmits-Completes c sender receiver (unsent is_ack nsp m i)
          (sent_as (ltb 0 (length (binaries m)))) (delivered is_ack nsp' i m)
          ((false, b'4' ∷ text) ∷ binary_payloads (frames (b ∷ rest)))
          (rw
            (
              accept-unsent c is_ack true nsp m i v (frames (b ∷ rest)) e (ground arith),
              sends,
              bins,
            )
            (ground arith))
          (subst
            (λ fs.
              Completes c (record receiver { partial_packet = none }) (delivered is_ack nsp' i m)
                receiver ((b'4' ∷ text) ∷ fs))
            (sym (payloads-binary (frames (b ∷ rest))))
            (silent receiver _ (b'4' ∷ text) (frames (b ∷ rest)) (put-counted b rest small) (
              rw has (
                frames-Completes c type nsp' i json (ptr m) receiver rest [] b decodes
                  (rw back f)))))

    transmits :
        (bins : List Bytes)
        → binaries m ≡ bins
        → accept_message m [] ≡ ok (v, frames bins)
        → from_json v bins ≡ ok (ptr m)
        → length bins < 2 ^ 32
        → Transmits c sender receiver
            (unsent is_ack nsp m i)
            (sent_as (ltb 0 (length (binaries m))))
            (delivered is_ack nsp' i m)
    transmits [] bins e f small = Transmits-plain e f bins
    transmits (b ∷ rest) bins e f small = Transmits-counted b rest e f bins small

-- An event or an acknowledgement that the constructor accepts (its namespace the root or of Nsp's
-- form, its id none or below 2^31, its message well formed with fewer than 2^31 binaries) is encoded
-- by a manager with an encode callback. Its payloads, put in order into a manager with a decode
-- callback that waits for no attachment, make it decode exactly one packet, at the last of them: with the
-- same id and message, the namespace with "/" for the empty one, and the type event or acknowledgement, binary if
-- there are binaries. The receiver then waits for nothing. The sent packet keeps its fields but for
-- that type. The casts read back what the streams write, and the JSON library carries the message.
pub put_all-encode :
    (c : Codec) (sender receiver : Manager) (is_ack : Bool) (nsp nsp' : Bytes) (m : Message) (i : ℤ)
    (p : Packet)
    → CastsInt c
    → CastsUnsigned c
    → Carries c m
    → sender.has_encode_callback ≡ true
    → receiver.has_decode_callback ≡ true
    → receiver.partial_packet ≡ none
    → Nsp nsp nsp'
    → PackId i
    → WellFormed m
    → length (binaries m) < 2 ^ 31
    → message_packet nsp (ptr m) i is_ack ≡ ok p
    → Transmits c sender receiver p
        (record p { type = pos (final_type is_ack (ltb 0 (length (binaries m)))) })
        (delivered is_ack nsp' i m)
put_all-encode c sender receiver is_ack nsp nsp' m i p casts counts carries sends decodes idle ns id
      w small made =
    let bins : List Bytes = binaries m in
    let none_after : bins ++ [] ≡ bins = append-nil bins in
    let (v, e, f) = from_json-accept_message m [] [] w (rw none_after small) in
    let (start, back) = carries v (frames bins) e in
    subst
      (λ q.
        Transmits c sender receiver q
          (record q { type = pos (final_type is_ack (ltb 0 (length bins))) })
          (delivered is_ack nsp' i m))
      (message_packet-unsent is_ack nsp m i p made)
      (unfold sent_as in
        transmits c is_ack nsp nsp' m i ns id casts counts sender receiver sends decodes idle v
          start back bins refl e (rw none_after at f) (omega arith))
