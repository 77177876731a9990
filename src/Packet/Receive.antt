-- ===== src/Packet/Receive.antt =====
-- `put_payload` of sio_packet.cpp for a text and the attachments behind it.
use taquin_client_project.Base.{
  ℕ, suc, ◌≡◌, refl, ap, sym, ◌∙◌, subst, arith, ℤ, pos, Bytes, Bool, true, false, none, some, List,
  [], ◌∷◌, ◌++◌, length, append_assoc, append-nil, ◌==◌, if◌then◌else◌,
}
use taquin_client_project.Result.{Result, ok, ◌>>=◌}
use taquin_client_project.Message.{Ptr, nullptr}
use taquin_client_project.Json.{Buffers, from_json, frame_message}
use taquin_client_project.Json.WellFormed.{frames}
use taquin_client_project.Packet.{Packet, Codec, is_text_message}
use taquin_client_project.Packet.Parse.{parse_buffer, finish}
use taquin_client_project.Packet.Manager.{
  Manager, put_payload, put_text, put_binary, put_all, decoded,
}
use taquin_client_project.Packet.Body.{parsed}
use taquin_client_project.Packet.Head.{opened, final_type, is_binary_message-cons}

-- A packet that waits for n attachments.
abbrev pub waiting : ℕ → Bytes → ℤ → ℕ → Buffers → Packet
waiting type nsp i n bs = record {
  frame = pos 4;
  type = pos type;
  nsp = nsp;
  pack_id = i;
  message = nullptr;
  pending = n;
  buffers = bs;
}

pub is_text_message-cons : (ch : ℕ) (s : Bytes) → is_text_message (ch ∷ s) ≡ (ch == 52)
unfolding is_text_message
is_text_message-cons ch s = ground arith

bind-same : (r : Result (Manager × List Packet)) → (r >>= λ (m, ps). ok (m, [] ++ ps)) ≡ r
bind-same (ok (m, ps)) = refl
bind-same (Result.err e) = refl

-- A payload that decodes nothing, and one that is the last.
pub put_all-silent :
    (c : Codec) (r r' : Manager) (s : Bytes) (rest : List Bytes)
    → put_payload c r s ≡ ok (r', [])
    → put_all c r (s ∷ rest) ≡ put_all c r' rest
unfolding put_all
put_all-silent c r r' s rest e = rw e (bind-same (put_all c r' rest))

pub put_all-last :
    (c : Codec) (r r' : Manager) (s : Bytes) (ps : List Packet)
    → put_payload c r s ≡ ok (r', ps)
    → put_all c r (s ∷ []) ≡ ok (r', ps)
unfolding put_all
put_all-last c r r' s ps e = rw e (ap (λ qs. ok (r', qs)) (append-nil ps))

-- Payloads of which the last one completes a packet, and the others none.
pub data Completes (c : Codec) (r' : Manager) (q : Packet) : Manager → List Bytes → Type 0 where
  completes :
      (r : Manager) (s : Bytes) → put_payload c r s ≡ ok (r', q ∷ []) → Completes c r' q r (s ∷ [])
  silent :
      (r r1 : Manager) (s : Bytes) (rest : List Bytes)
      → put_payload c r s ≡ ok (r1, [])
      → Completes c r' q r1 rest
      → Completes c r' q r (s ∷ rest)

pub put_all-Completes :
    (c : Codec) (r' : Manager) (q : Packet) (r : Manager) (fs : List Bytes)
    → Completes c r' q r fs
    → put_all c r fs ≡ ok (r', q ∷ [])
put_all-Completes c r' q r fs (completes _ s e) = put_all-last c r r' s (q ∷ []) e
put_all-Completes c r' q r fs (silent _ r1 s rest e h) =
    put_all-silent c r r1 s rest e ∙ put_all-Completes c r' q r1 rest h

module _ (c : Codec) (type : ℕ) (nsp : Bytes) (i : ℤ) (text : Bytes) (m : Ptr) where
  unfoldable pub complete : Packet
  complete = record (waiting type nsp i 0 []) { message = m }

  parse_buffer-more :
      (k : ℕ) (bs : Buffers) (b : Bytes)
      → parse_buffer c (waiting type nsp i (suc (suc k)) bs) (frame_message ∷ b)
        ≡ ok (waiting type nsp i (suc k) (bs ++ b ∷ []), true)
  unfolding parse_buffer
  parse_buffer-more k bs b = rw (is_binary_message-cons frame_message b) (ground arith)

  parse_buffer-last :
      (got : Buffers) (b : Bytes)
      → from_json (c.json_parse text) (got ++ b ∷ []) ≡ ok m
      → parse_buffer c (waiting type nsp i 1 (text ∷ got)) (frame_message ∷ b)
        ≡ ok (complete, false)
  unfolding parse_buffer finish complete
  parse_buffer-last got b e = rw (is_binary_message-cons frame_message b, e)

  abbrev pub holding : Manager → ℕ → Buffers → Manager
  holding r n got = record r { partial_packet = some (waiting type nsp i n (text ∷ got)) }

  put_attachment :
      (r : Manager) (b : Bytes)
      → put_payload c r (frame_message ∷ b) ≡ put_binary c r (frame_message ∷ b)
  unfolding put_payload
  put_attachment r b =
      rw (is_text_message-cons frame_message b, is_binary_message-cons frame_message b)

  put-more :
      (r : Manager) (k : ℕ) (got : Buffers) (b : Bytes)
      → put_payload c (holding r (suc (suc k)) got) (frame_message ∷ b)
        ≡ ok (holding r (suc k) (got ++ b ∷ []), [])
  unfolding put_binary
  put-more r k got b =
      rw (put_attachment (holding r (suc (suc k)) got) b, parse_buffer-more k (text ∷ got) b)

  put-last :
      (r : Manager) (got : Buffers) (b : Bytes)
      → from_json (c.json_parse text) (got ++ b ∷ []) ≡ ok m
      → put_payload c (holding r 1 got) (frame_message ∷ b)
        ≡ ok (record r { partial_packet = none }, decoded r complete)
  unfolding put_binary
  put-last r got b e = rw (put_attachment (holding r 1 got) b, parse_buffer-last got b e)

  -- The attachments complete the packet that waits for them.
  pub frames-Completes :
      (r : Manager) (rest got : List Bytes) (b : Bytes)
      → r.has_decode_callback ≡ true
      → from_json (c.json_parse text) (got ++ b ∷ rest) ≡ ok m
      → Completes c
          (record r { partial_packet = none })
          complete
          (holding r (suc (length rest)) got)
          (frames (b ∷ rest))
  frames-Completes r [] got b decodes e = completes (holding r 1 got) (frame_message ∷ b) (
      put-last r got b e
      ∙ ap (λ flag. ok (record r { partial_packet = none }, if flag then complete ∷ [] else []))
          decodes)
  frames-Completes r (b' ∷ rest) got b decodes e =
      silent (holding r (suc (suc (length rest))) got)
        (holding r (suc (length rest)) (got ++ b ∷ [])) (frame_message ∷ b) (frames (b' ∷ rest))
        (put-more r (length rest) got b)
        (frames-Completes r rest (got ++ b ∷ []) b' decodes (
          subst (λ bs. from_json (c.json_parse text) bs ≡ ok m)
            (sym (append_assoc got (b ∷ []) (b' ∷ rest))) e))

pub text_payload :
    (c : Codec) (r : Manager) (s : Bytes) → put_payload c r (b'4' ∷ s) ≡ put_text c r (b'4' ∷ s)
unfolding put_payload
text_payload c r s = rw (is_text_message-cons b'4' s)

pub parsed-plain :
    (c : Codec) (is_ack : Bool) (nsp text : Bytes) (i : ℤ) (m : Ptr)
    → from_json (c.json_parse text) [] ≡ ok m
    → parsed c (opened (final_type is_ack false) nsp 0) i text
      ≡ ok (record (waiting (final_type is_ack false) nsp i 0 []) { message = m }, false)
parsed-plain c true nsp text i m e = rw e
parsed-plain c false nsp text i m e = rw e

pub parsed-counted :
    (c : Codec) (is_ack : Bool) (nsp text : Bytes) (i : ℤ) (n : ℕ)
    → parsed c (opened (final_type is_ack true) nsp n) i text
      ≡ ok (waiting (final_type is_ack true) nsp i n (text ∷ []), true)
parsed-counted c true nsp text i n = refl
parsed-counted c false nsp text i n = refl
