-- ===== src/Socket/Threads.antt =====
-- `send_packet`, `on_connected` and `on_disconnect` of sio_socket.cpp as several threads run them. A step is one
-- access of `m_connected`, one part under `m_packet_mutex`, or one call of the client. The socket keeps its
-- client, and its timer, which none of these reads, is left out.
pub mod Kept
pub mod Alone
pub mod Stranded
use taquin_client_project.Base.{
  ℕ, zero, suc, Bool, true, false, if◌then◌else◌, Option, none, some, List, [], ◌∷◌, ◌++◌,
}
use taquin_client_project.Packet.{Packet}
use taquin_client_project.Socket.Order.{Traffic, sending, connecting, disconnecting}

-- What the threads share, with what the client got, what a disconnect dropped, and what was to be sent.
pub record Shared : Type 0 where
  pub connected : Bool
  pub queue : List Packet
  pub sent : List Packet
  pub dropped : List Packet
  pub requested : List Packet

-- Where a thread is: in front of the step named.
pub data Place : Type 0 where
  idle : Place
  -- `send_packet`: the test of `m_connected`, the push, and `m_client->send(p)`
  testing pushing passing : Packet → Place
  -- the loop of `send_packet`, with its packet, or of `on_connected`: the pop, and the send of what was popped
  popping : Option Packet → Place
  holding : Packet → Option Packet → Place
  -- `on_connected`: the test, the write, and `on_socket_opened`
  entering setting opening : Place
  -- `on_disconnect`: the test, the write, and the loop that empties the queue
  leaving unsetting clearing : Place

-- Behind the loop.
abbrev pub behind : Option Packet → Place
behind none = idle
behind (some p) = passing p

-- The part of the loop under the mutex.
unfoldable pub pop : List Packet → Option Packet → Shared → Shared × Place
pop [] p s = (s, behind p)
pop (q ∷ qs) p s = (record s { queue = qs }, holding q p)

unfoldable pub advance : Place → Shared → Shared × Place
unfolding pop
advance idle s = (s, idle)
advance (testing p) s = (s, (if s.connected then popping (some p) else pushing p))
advance (pushing p) s = (record s { queue = s.queue ++ p ∷ [] }, idle)
advance (passing p) s = (record s { sent = s.sent ++ p ∷ [] }, idle)
advance (popping p) s = pop s.queue p s
advance (holding q p) s = (record s { sent = s.sent ++ q ∷ [] }, popping p)
advance entering s = (s, (if s.connected then idle else setting))
advance setting s = (record s { connected = true }, opening)
advance opening s = (s, popping none)
advance leaving s = (s, (if s.connected then unsetting else idle))
advance unsetting s = (record s { connected = false }, clearing)
advance clearing s = (record s { queue = []; dropped = s.dropped ++ s.queue }, idle)

unfoldable pub call : Traffic → Shared → Shared × Place
call (sending p) s = (record s { requested = s.requested ++ p ∷ [] }, testing p)
call connecting s = (s, entering)
call disconnecting s = (s, leaving)

-- A thread goes on, or calls a method if it is in none.
unfoldable pub act : Option Traffic → Place → Shared → Shared × Place
unfolding advance call
act (some c) idle s = call c s
act (some c) at s = (s, at)
act none at s = advance at s

-- The turn of the thread with this number.
unfoldable pub turn : ℕ → Option Traffic → List Place → Shared → Shared × List Place
unfolding act
turn i c [] s = (s, [])
turn zero c (at ∷ rest) s = let (s', at') = act c at s in (s', at' ∷ rest)
turn (suc i) c (at ∷ rest) s = let (s', rest') = turn i c rest s in (s', at ∷ rest')

-- The threads' turns, in any order.
unfoldable pub run : List (ℕ × Option Traffic) → List Place → Shared → Shared × List Place
unfolding turn
run [] places s = (s, places)
run ((i, c) ∷ turns) places s = let (s', places') = turn i c places s in run turns places' s'

unfoldable pub new_shared : Shared
new_shared = record { connected = false; queue = []; sent = []; dropped = []; requested = [] }

abbrev pub idles : ℕ → List Place
idles zero = []
idles (suc n) = idle ∷ idles n
