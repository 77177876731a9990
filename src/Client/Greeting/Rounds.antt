-- ===== src/Client/Greeting/Rounds.antt =====
-- A handshake that is taken, and the pings and pongs after it.
use taquin_client_project.Base.{
  ℕ, pos, Bytes, codes, true, false, if◌then◌else◌, none, some, List, [], ◌∷◌, ◌++◌, ◌≡◌, refl, ◌∙◌,
  ap, sym, ◌<◌, ◌^◌, arith, zero, suc, append_assoc, append-nil,
}
use taquin_client_project.Result.{Result, ok, ◌>>=◌}
use taquin_client_project.Message.{Fields, ptr, object, string, integer}
use taquin_client_project.Message.Objects.{find_field}
use taquin_client_project.Packet.{Codec, accept, frame_packet}
use taquin_client_project.Packet.Manager.{encode}
use taquin_client_project.Socket.{Socket, Event}
use taquin_client_project.Client.{
  Client, Effect, tell, arm_timer, cancel_timer, ping_timer, ping_timeout_timer, transmit,
}
use taquin_client_project.Client.Handshake.{on_handshake, handshake_fields, on_pong, ping, setting}
use taquin_client_project.Client.Incoming.{on_message}
use taquin_client_project.Client.Wire.{patience}
use taquin_client_project.Client.Greeting.{IsRead, on_message-open, on_message-pong}

-- The number under a key, or the default.
pub data IsSetting (key : Bytes) (default : ℕ) (fs : Fields) : ℕ → Type 0 where
  absent : find_field key fs ≡ none → IsSetting key default fs default
  given :
      (n : ℕ)
      → find_field key fs ≡ some (ptr (integer (pos n)))
      → n < 2 ^ 32
      → IsSetting key default fs n

setting-IsSetting :
    (key : Bytes) (d : ℕ) (fs : Fields) (n : ℕ) → IsSetting key d fs n → setting key d fs ≡ ok n
unfolding setting
setting-IsSetting key d fs _ (absent e) = rw (e, setting)
setting-IsSetting key d fs _ (given n e small) = rw (e, setting) (ap ok (omega arith))

-- What a ping and its pong log.
abbrev pub beat_log : ℕ → ℕ → List Effect
beat_log interval timeout =
    transmit false (codes "2")
    ∷ arm_timer ping_timer interval
    ∷ arm_timer ping_timeout_timer timeout
    ∷ arm_timer ping_timeout_timer timeout
    ∷ cancel_timer ping_timeout_timer
    ∷ []

unfoldable pub beat_logs : ℕ → ℕ → ℕ → List Effect
beat_logs zero interval timeout = []
beat_logs (suc k) interval timeout = beat_log interval timeout ++ beat_logs k interval timeout

four : (l a b d e : List Effect) → (((l ++ a) ++ b) ++ d) ++ e ≡ l ++ (a ++ (b ++ (d ++ e)))
four l a b d e = simp (append_assoc)

module _ (codec : Codec) (invoke : ℕ → Event → Socket → Event × Socket) where
  -- The ping timer runs out, and the server answers the ping, so many times.
  unfoldable pub rounds : ℕ → Client → Result Client
  unfolding on_message
  rounds zero c = ok c
  rounds (suc k) c = ping codec false c >>= on_message codec invoke (codes "3") >>= rounds k

  ping-once :
      (c : Client)
      → c.con ≡ true
      → c.has_ping_timer ≡ true
      → c.has_ping_timeout_timer ≡ false
      → ping codec false c
        ≡ ok (record c {
          has_ping_timeout_timer = true;
          log =
              (c.log ++ transmit false (codes "2") ∷ arm_timer ping_timer c.ping_interval ∷ [])
              ++ arm_timer ping_timeout_timer c.ping_timeout ∷ [];
        })
  unfolding ping encode accept frame_packet
  ping-once c up runs idle = rw (up, runs, idle) refl

  accepted :
      (fs : Fields) (sid : Bytes) (interval timeout : ℕ) (c : Client)
      → find_field (codes "sid") fs ≡ some (ptr (string sid))
      → IsSetting (codes "pingInterval") 25000 fs interval
      → IsSetting (codes "pingTimeout") 60000 fs timeout
      → on_handshake (ptr (object fs)) c
        ≡ ok (record c {
          sid = sid;
          ping_interval = interval;
          ping_timeout = timeout;
          has_ping_timer = true;
          log = c.log ++ arm_timer ping_timer interval ∷ [];
        })
  unfolding on_handshake handshake_fields
  accepted fs sid interval timeout c named i t = rw (
    named,
    setting-IsSetting _ _ fs interval i,
    setting-IsSetting _ _ fs timeout t,
    handshake_fields,
  )

  round :
      (c : Client)
      → c.packet_mgr.has_decode_callback ≡ true
      → c.con ≡ true
      → c.has_ping_timer ≡ true
      → c.has_ping_timeout_timer ≡ false
      → (ping codec false c >>= on_message codec invoke (codes "3"))
        ≡ ok (record c { log = c.log ++ beat_log c.ping_interval c.ping_timeout })
  unfolding on_pong
  round c d up runs idle =
      ap (λ r. r >>= on_message codec invoke (codes "3")) (ping-once c up runs idle)
      ∙ on_message-pong codec invoke _ d
      ∙ ap (λ log. ok (record c { has_ping_timeout_timer = false; log = log }))
          (four c.log _ (arm_timer ping_timeout_timer c.ping_timeout ∷ []) _ _)
      ∙ ap
          (λ waits. ok (record c {
            has_ping_timeout_timer = waits;
            log = c.log ++ beat_log c.ping_interval c.ping_timeout;
          }))
          (sym idle)

  rounds-beat_logs :
      (k : ℕ) (c : Client)
      → c.packet_mgr.has_decode_callback ≡ true
      → c.con ≡ true
      → c.has_ping_timer ≡ true
      → c.has_ping_timeout_timer ≡ false
      → rounds k c ≡ ok (record c { log = c.log ++ beat_logs k c.ping_interval c.ping_timeout })
  unfolding rounds beat_logs
  rounds-beat_logs zero c d up runs idle =
      ap (λ log. ok (record c { log = log })) (sym (append-nil c.log))
  rounds-beat_logs (suc k) c d up runs idle =
      let beat : List Effect = beat_log c.ping_interval c.ping_timeout in
      let now : Client = record c { log = c.log ++ beat } in
      ap (λ r. r >>= rounds k) (round c d up runs idle)
      ∙ rounds-beat_logs k now d up runs idle
      ∙ ap (λ log. ok (record c { log = log }))
          (append_assoc c.log beat (beat_logs k c.ping_interval c.ping_timeout))

  -- The client has its decode callback and a connection, and waits for no pong. The server sends '0' and a
  -- JSON text that the library reads as an object with a text under "sid", and under "pingInterval" and
  -- "pingTimeout" either nothing or a number from 0 below 2^32. Then `on_message`, and after it any number of
  -- times a ping when its timer runs out and the payload "3" of the server, return. The client has stored
  -- the three, with 25000 and 60000 for a missing number, and its ping timer is set. It logs the ping timer
  -- armed, and each time the ping "2" sent, both timers armed, and the pong timeout put off and cancelled,
  -- with these intervals. Nothing else is changed.
  pub handshake_beats :
      (rest : Bytes) (fs : Fields) (sid : Bytes) (interval timeout k : ℕ) (c : Client)
      → c.packet_mgr.has_decode_callback ≡ true
      → c.con ≡ true
      → c.has_ping_timeout_timer ≡ false
      → IsRead codec rest (ptr (object fs))
      → find_field (codes "sid") fs ≡ some (ptr (string sid))
      → IsSetting (codes "pingInterval") 25000 fs interval
      → IsSetting (codes "pingTimeout") 60000 fs timeout
      → (on_message codec invoke (b'0' ∷ rest) c >>= rounds k)
        ≡ ok (record c {
          sid = sid;
          ping_interval = interval;
          ping_timeout = timeout;
          has_ping_timer = true;
          log = c.log ++ arm_timer ping_timer interval ∷ beat_logs k interval timeout;
        })
  handshake_beats rest fs sid interval timeout k c d up idle read named i t =
      let now : Client = record c {
        sid = sid;
        ping_interval = interval;
        ping_timeout = timeout;
        has_ping_timer = true;
        log = c.log ++ arm_timer ping_timer interval ∷ [];
      } in
      let quiet : tell c (patience c) ≡ c =
        ap
          (λ waits. tell c (if waits then arm_timer ping_timeout_timer c.ping_timeout ∷ [] else []))
          idle
        ∙ ap (λ log. record c { log = log }) (append-nil c.log) in
      ap (λ r. r >>= rounds k)
        (on_message-open codec invoke rest _ c d read
          ∙ ap (on_handshake (ptr (object fs))) quiet
          ∙ accepted fs sid interval timeout c named i t)
      ∙ rounds-beat_logs k now d up refl idle
      ∙ ap (λ log. ok (record now { log = log }))
          (append_assoc c.log (arm_timer ping_timer interval ∷ []) _)
