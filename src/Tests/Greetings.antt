-- ===== src/Tests/Greetings.antt =====
-- A handshake that is taken, and one that is refused.
use taquin_client_project.Base.{
  ◌≡◌, refl, arith, pos, codes, bytes_eq, bytes_lt, true, [], ◌∷◌, ◌++◌,
}
use taquin_client_project.Result.{ok, ◌>>=◌}
use taquin_client_project.Message.{Fields, ptr, nullptr, string, integer, object, field, end}
use taquin_client_project.Message.Objects.{find_field, insert}
use taquin_client_project.Json.{
  Value, json_string, json_int64, json_object, member, no_members, from_json, is_place_holder,
  find_member,
}
use taquin_client_project.Packet.{Codec}
use taquin_client_project.Client.{
  Client, new_client, con_opened, dispatch_close, policy_violation, arm_timer, ping_timer,
}
use taquin_client_project.Client.Wire.{patience}
use taquin_client_project.Client.Incoming.{on_message}
use taquin_client_project.Client.Greeting.{IsRead, bare, document, no_sid_refused}
use taquin_client_project.Client.Greeting.Rounds.{absent, given, rounds, beat_logs, handshake_beats}
use taquin_client_project.Tests.Wire.{one_document, ignore}

-- A library that reads one handshake.
abbrev greeting : Value
greeting = json_object (
    member (codes "sid") (json_string (codes "x7"))
      (member (codes "pingInterval") (json_int64 (pos 5000)) no_members))

abbrev greeted : Codec
greeted = record one_document { json_parse = λ s. greeting }

abbrev fields : Fields
fields =
    field (codes "pingInterval") (ptr (integer (pos 5000)))
      (field (codes "sid") (ptr (string (codes "x7"))) end)

abbrev connecting : Client
connecting = record (new_client 0) { con_state = con_opened; con = true }

greeting-IsRead : IsRead greeted (codes "{}") (ptr (object fields))
unfolding from_json is_place_holder find_member insert bytes_eq bytes_lt
greeting-IsRead = document b'{' (codes "}") (ptr (object fields)) refl refl

handshake_beats_example :
    (on_message greeted ignore (codes "0{}") connecting >>= rounds greeted ignore 3)
    ≡ ok (record connecting {
      sid = codes "x7";
      ping_interval = 5000;
      ping_timeout = 60000;
      has_ping_timer = true;
      log = connecting.log ++ arm_timer ping_timer 5000 ∷ beat_logs 3 5000 60000;
    })
unfolding new_client find_field bytes_eq
handshake_beats_example =
    handshake_beats greeted ignore (codes "{}") fields (codes "x7") 5000 60000 3 connecting refl
      refl refl greeting-IsRead refl (given 5000 refl (omega arith)) (absent refl)

no_sid_refused_example :
    on_message greeted ignore (codes "0") connecting
    ≡ ok (record connecting {
      log =
          (connecting.log ++ patience connecting)
          ++ dispatch_close policy_violation (codes "Handshake error") ∷ [];
    })
unfolding new_client
no_sid_refused_example = no_sid_refused greeted ignore [] nullptr connecting refl (bare [] tt) tt
