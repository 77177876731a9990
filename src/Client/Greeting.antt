-- ===== src/Client/Greeting.antt =====
-- The handshake of a connection on the wire: the open packet that the server sends.
pub mod Rounds
use taquin_client_project.Base.{
  ℕ, ℤ, pos, negsuc, Bytes, codes, bytes_eq, Bool, true, false, if◌then◌else◌, Option, none, some,
  List, [], ◌∷◌, ◌++◌, ◌≡◌, refl, ◌∙◌, ap, sym, ◌<◌, ◌^◌, Avoids, arith, find_in, zero, suc,
  append_assoc, append-nil, ◌||◌, ◌==◌,
}
use taquin_client_project.Result.{Result, ok, ◌>>=◌}
use taquin_client_project.Message.{
  Ptr, Fields, nullptr, ptr, object, string, integer, double, binary, array, boolean, null, Message,
}
use taquin_client_project.Message.Objects.{find_field}
use taquin_client_project.Json.{from_json}
use taquin_client_project.Packet.{
  Packet, Codec, empty_packet, is_binary_message, accept, frame_packet,
}
use taquin_client_project.Packet.Parse.{
  is_body_start, is_json_start, parse, parse_body, parse_head, parse_message, at_pos, find_first_of,
}
use taquin_client_project.Packet.Search.{find_first_of-none, find_first_of-append, char_at-parts}
use taquin_client_project.Packet.Body.{json_start-body, json_start-slash}
use taquin_client_project.Packet.Head.{parse-continue, is_binary_message-cons}
use taquin_client_project.Packet.Receive.{is_text_message-cons}
use taquin_client_project.Packet.Manager.{Manager, encode, put_payload, put_other}
use taquin_client_project.Socket.{Socket, Event}
use taquin_client_project.Client.{
  Client, Effect, dispatch_close, policy_violation, tell, arm_timer, cancel_timer, ping_timer,
  ping_timeout_timer, transmit,
}
use taquin_client_project.Client.Handshake.{
  on_handshake, handshake_fields, handshake_failed, on_pong, ping, setting,
}
use taquin_client_project.Client.Incoming.{on_message, on_decode_all, on_decode}
use taquin_client_project.Client.Wire.{patience, on_message-put, bind-ok}

-- What the text behind the frame of an open packet is read as: nothing, or a JSON text.
pub data IsRead (codec : Codec) : Bytes → Ptr → Type 0 where
  bare : (rest : Bytes) → Avoids is_body_start rest → IsRead codec rest nullptr
  document :
      (ch : ℕ) (rest : Bytes) (p : Ptr)
      → is_json_start ch ≡ true
      → from_json (codec.json_parse (ch ∷ rest)) [] ≡ ok p
      → IsRead codec (ch ∷ rest) p

-- An open packet of the server.
abbrev open_packet : Bytes → Ptr → Packet
open_packet nsp p = record empty_packet {
  frame = pos 0;
  nsp = nsp;
  message = p;
  pack_id = negsuc 0;
}

parse-open :
    (codec : Codec) (rest : Bytes) (p : Ptr)
    → IsRead codec rest p
    → parse codec empty_packet (b'0' ∷ rest) ≡ ok (open_packet (codes "/") p, false)
unfolding parse_head empty_packet parse_body parse_message
parse-open codec _ _ (bare rest a) =
    parse-continue codec empty_packet (b'0' ∷ rest) (at_pos (open_packet [] nullptr) 1)
      (is_binary_message-cons b'0' _) refl
    ∙ rw (find_first_of-none is_body_start (codes "0") rest 1 refl a, parse_body)
parse-open codec _ _ (document ch rest p start e) =
    parse-continue codec empty_packet (b'0' ∷ ch ∷ rest) (at_pos (open_packet [] nullptr) 1)
      (is_binary_message-cons b'0' _) refl
    ∙ rw
        (
          find_first_of-append is_body_start (codes "0") [] ch rest 1 refl tt
              (json_start-body ch start),
          json_start-slash ch start,
          parse_body,
        )
        (ap (λ (r : Result Ptr). r >>= λ m. ok (open_packet (codes "/") m, false)) e)

-- A payload that is neither a message nor an attachment is decoded alone.
put_payload-other :
    (codec : Codec) (m : Manager) (ch : ℕ) (rest : Bytes) (p : Packet)
    → (ch == b'4') ≡ false
    → (ch == 4) ≡ false
    → m.has_decode_callback ≡ true
    → parse codec empty_packet (ch ∷ rest) ≡ ok (p, false)
    → put_payload codec m (ch ∷ rest) ≡ ok (m, p ∷ [])
unfolding put_payload put_other
put_payload-other codec m ch rest p not_text not_binary d e =
    rw (is_text_message-cons ch rest, not_text, is_binary_message-cons ch rest, not_binary, e, d)

-- Whether the handshake is refused: it carries no object, or one without a "sid".
abbrev pub IsRefused : Ptr → Type 0
IsRefused (ptr (object fs)) = find_field (codes "sid") fs ≡ none
IsRefused p = Unit {0}

module _ (codec : Codec) (invoke : ℕ → Event → Socket → Event × Socket) where
  -- An open packet reaches `on_handshake`, with what it carries.
  pub on_message-open :
      (rest : Bytes) (p : Ptr) (c : Client)
      → c.packet_mgr.has_decode_callback ≡ true
      → IsRead codec rest p
      → on_message codec invoke (b'0' ∷ rest) c ≡ on_handshake p (tell c (patience c))
  unfolding on_decode_all on_decode
  on_message-open rest p c d read =
      on_message-put codec invoke (b'0' ∷ rest) c c.packet_mgr (open_packet (codes "/") p ∷ []) (
        put_payload-other codec c.packet_mgr b'0' rest _ refl refl d (parse-open codec rest p read))
      ∙ bind-ok (on_handshake p (tell c (patience c)))

  pub on_message-pong :
      (c : Client)
      → c.packet_mgr.has_decode_callback ≡ true
      → on_message codec invoke (codes "3") c ≡ ok (on_pong (tell c (patience c)))
  unfolding on_decode_all on_decode parse parse_head parse_body empty_packet is_binary_message
      find_first_of find_in
  on_message-pong c d =
      on_message-put codec invoke (codes "3") c c.packet_mgr _
        (put_payload-other codec c.packet_mgr b'3' [] _ refl refl d refl)

  refused : (p : Ptr) (c : Client) → IsRefused p → on_handshake p c ≡ ok (handshake_failed c)
  unfolding on_handshake handshake_fields
  refused nullptr c h = refl
  refused (ptr (object fs)) c h = rw (h, handshake_fields)
  refused (ptr (integer v)) c h = refl
  refused (ptr (double v)) c h = refl
  refused (ptr (string v)) c h = refl
  refused (ptr (binary v)) c h = refl
  refused (ptr (array v)) c h = refl
  refused (ptr (boolean v)) c h = refl
  refused (ptr null) c h = refl

  -- The client has its decode callback. A payload of the server that starts with '0', behind which no byte
  -- starts a JSON text or a namespace, or a JSON text follows that the library reads as a value that becomes
  -- an empty pointer, a message other than an object, or an object without "sid": `on_message` returns and
  -- changes nothing but the log, where, behind a pong timeout put off, one close for a policy violation with
  -- "Handshake error" is dispatched.
  pub no_sid_refused :
      (rest : Bytes) (p : Ptr) (c : Client)
      → c.packet_mgr.has_decode_callback ≡ true
      → IsRead codec rest p
      → IsRefused p
      → on_message codec invoke (b'0' ∷ rest) c
        ≡ ok (record c {
          log =
              (c.log ++ patience c)
              ++ dispatch_close policy_violation (codes "Handshake error") ∷ [];
        })
  unfolding handshake_failed
  no_sid_refused rest p c d read h =
      on_message-open rest p c d read ∙ refused p (tell c (patience c)) h
