-- ===== src/Client/Handshake.antt =====
-- The handshake and the pings of `client_impl` (sio_client_impl.cpp).
use taquin_client_project.Base.{
  ℕ, ◌%◌, ◌^◌, ◌-◌, ℤ, pos, negsuc, Bytes, codes, Bool, true, false, not, ◌||◌, if◌then◌else◌, none,
  some, List, [], ◌∷◌, ◌++◌,
}
use taquin_client_project.Result.{Result, ok, ◌>>=◌}
use taquin_client_project.Message.{
  Message, Ptr, Fields, nullptr, ptr, object, integer, deref, get_string,
}
use taquin_client_project.Message.Objects.{find_field}
use taquin_client_project.Packet.{Codec, frame_packet}
use taquin_client_project.Packet.Manager.{Payload, encode}
use taquin_client_project.Client.{
  Client, policy_violation, ping_timer, ping_timeout_timer, Effect, dispatch_close, transmit,
  arm_timer, cancel_timer, tell,
}

-- The payloads of the ping packet, which the overriding callback sends as text.
abbrev pub transmits_text : List Payload → List Effect
transmits_text [] = []
transmits_text ((is_binary, s) ∷ rest) = transmit false s ∷ transmits_text rest

abbrev pub arm_pong : Client → Client
arm_pong c = if c.has_ping_timeout_timer then c else record c {
  has_ping_timeout_timer = true;
  log = c.log ++ arm_timer ping_timeout_timer c.ping_timeout ∷ [];
}

unfoldable pub timeout_pong : Bool → Client → Client
timeout_pong ec c =
    if ec then c else tell c (dispatch_close policy_violation (codes "Pong timeout") ∷ [])

unfoldable pub on_pong : Client → Client
on_pong c =
    if c.has_ping_timeout_timer
    then record c {
      has_ping_timeout_timer = false;
      log = c.log ++ cancel_timer ping_timeout_timer ∷ [];
    }
    else c

-- `(unsigned)` of an `int64_t`.
abbrev pub to_unsigned32 : ℤ → ℕ
to_unsigned32 (pos n) = n % 2 ^ 32
to_unsigned32 (negsuc n) = 2 ^ 32 - 1 - n % 2 ^ 32

abbrev pub integer_or : Message → ℕ → ℕ
integer_or (integer v) d = to_unsigned32 v
integer_or m d = d

-- An integer under the key, or the default; an empty pointer under the key is dereferenced.
unfoldable pub setting : Bytes → ℕ → Fields → Result ℕ
setting key d fs = elim (find_field key fs) [
  | none ↦ ok d
  | some p ↦ (deref p >>= λ m. ok (integer_or m d))
]

-- `failed:`
unfoldable pub handshake_failed : Client → Client
handshake_failed c = tell c (dispatch_close policy_violation (codes "Handshake error") ∷ [])

unfoldable pub handshake_fields : Fields → Client → Result Client
handshake_fields fs c = elim (find_field (codes "sid") fs) [
  | none ↦ ok (handshake_failed c)
  | some p ↦ deref p >>= get_string >>= λ sid.
      setting (codes "pingInterval") 25000 fs >>= λ interval.
      setting (codes "pingTimeout") 60000 fs >>= λ timeout. ok (record c {
        sid = sid;
        ping_interval = interval;
        ping_timeout = timeout;
        has_ping_timer = true;
        log = c.log ++ arm_timer ping_timer interval ∷ [];
      })
]

unfoldable pub on_handshake : Ptr → Client → Result Client
on_handshake nullptr c = ok (handshake_failed c)
on_handshake (ptr (object fs)) c = handshake_fields fs c
on_handshake (ptr m) c = ok (handshake_failed c)

module _ (codec : Codec) where
  -- A ping, unless the timer was cancelled or the connection is gone.
  unfoldable pub ping : Bool → Client → Result Client
  ping ec c =
      if ec || not c.con
      then ok c
      else (encode codec c.packet_mgr (frame_packet 2) true >>= λ (p, calls). ok (
          arm_pong (
            tell c (
              transmits_text calls
              ++ (if c.has_ping_timer then arm_timer ping_timer c.ping_interval ∷ [] else [])))))
