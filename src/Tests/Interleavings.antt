-- ===== src/Tests/Interleavings.antt =====
-- Two threads on one socket.
use taquin_client_project.Base.{
  ℕ, ◌≡◌, ◌+◌, refl, length, pos, codes, true, Option, none, some, List, [], ◌∷◌,
}
use taquin_client_project.Packet.{Packet}
use taquin_client_project.Socket.Order.{
  Traffic, sending, connecting, disconnecting, sends, happen_all, accepted,
}
use taquin_client_project.Socket.Acks.{event_packet}
use taquin_client_project.Socket.Threads.{Shared, idle, idles, run, new_shared}
use taquin_client_project.Socket.Threads.Kept.{total, held_all, no_packet_lost}
use taquin_client_project.Socket.Threads.Alone.{view, calls, served_in_order}
use taquin_client_project.Socket.Threads.Stranded.{race, packet_stranded}
use taquin_client_project.Tests.Connections.{waiting_socket}

abbrev first : Packet
first = event_packet (codes "/") (codes "start-request") [] (pos 0)

abbrev second : Packet
second = event_packet (codes "/") (codes "step") [] (pos 1)

abbrev traffic : List Traffic
traffic = sending first ∷ connecting ∷ sending second ∷ disconnecting ∷ connecting ∷ []

served_in_order_example :
    (turns : List (ℕ × Option Traffic)) × (calls turns ≡ traffic)
    × (run turns (idle ∷ []) (view waiting_socket [] [])
        ≡ (view (happen_all waiting_socket traffic) [] (first ∷ second ∷ []), idle ∷ []))
    × (accepted (happen_all waiting_socket traffic) ≡ first ∷ second ∷ [])
    × ((happen_all waiting_socket traffic).connected ≡ true
        → sends (happen_all waiting_socket traffic).log ≡ first ∷ second ∷ [])
served_in_order_example = served_in_order traffic waiting_socket [] [] refl (λ e. cc)

-- Packets counted by their texts of a namespace.
abbrev weight : Packet → ℕ
weight p = length p.nsp

abbrev mixed : List (ℕ × Option Traffic)
mixed =
    (0, some (sending first))
    ∷ (1, some connecting)
    ∷ (0, none)
    ∷ (1, none)
    ∷ (1, none)
    ∷ (2, some (sending second))
    ∷ (0, none)
    ∷ (2, none)
    ∷ (2, none)
    ∷ (1, none)
    ∷ (1, none)
    ∷ []

no_packet_lost_example :
    total weight (run mixed (idles 3) new_shared).0.requested
    ≡ total weight (run mixed (idles 3) new_shared).0.sent
      + total weight (run mixed (idles 3) new_shared).0.queue
      + total weight (run mixed (idles 3) new_shared).0.dropped
      + held_all weight (run mixed (idles 3) new_shared).1
no_packet_lost_example = no_packet_lost weight 3 mixed

abbrev early : Shared
early = record (view waiting_socket [] []) { queue = first ∷ []; requested = first ∷ [] }

packet_stranded_example : run (race second (first ∷ [])) (idle ∷ idle ∷ []) early ≡ (
  record early {
    connected = true;
    queue = second ∷ [];
    sent = first ∷ [];
    requested = first ∷ second ∷ [];
  },
  idle ∷ idle ∷ [],
)
packet_stranded_example = packet_stranded early second refl
