-- ===== src/Socket/Threads/Stranded.antt =====
-- A packet that stays in the queue of a connected socket.
use taquin_client_project.Base.{
  ℕ, ◌≡◌, ap, sym, ◌∙◌, true, false, Option, none, some, List, [], ◌∷◌, ◌++◌, append-nil,
  append_assoc,
}
use taquin_client_project.Packet.{Packet}
use taquin_client_project.Socket.Order.{Traffic, sending, connecting}
use taquin_client_project.Socket.Threads.{
  Shared, idle, pushing, popping, pop, advance, call, act, turn, run,
}

-- The turns in which thread 1 empties a queue.
abbrev drains : List Packet → List (ℕ × Option Traffic)
drains [] = []
drains (q ∷ qs) = (1, none) ∷ (1, none) ∷ drains qs

-- A thread calls `send_packet` and tests `m_connected`; the other runs `on_connected` to its end; the first
-- one pushes.
abbrev pub race : Packet → List Packet → List (ℕ × Option Traffic)
race p ps =
    (0, some (sending p))
    ∷ (0, none)
    ∷ (1, some connecting)
    ∷ (1, none)
    ∷ (1, none)
    ∷ (1, none)
    ∷ (drains ps ++ (1, none) ∷ (0, none) ∷ [])

emptied :
    (ps : List Packet) (p : Packet) (s : Shared)
    → run
        (drains ps ++ (1, none) ∷ (0, none) ∷ [])
        (pushing p ∷ popping none ∷ [])
        (record s { queue = ps })
      ≡ (record s { queue = p ∷ []; sent = s.sent ++ ps }, idle ∷ idle ∷ [])
unfolding run turn act advance pop
emptied [] p s =
    ap (λ l. (record s { queue = p ∷ []; sent = l }, idle ∷ idle ∷ [])) (sym (append-nil s.sent))
emptied (q ∷ qs) p s =
    emptied qs p (record s { sent = s.sent ++ q ∷ [] })
    ∙ ap (λ l. (record s { queue = p ∷ []; sent = l }, idle ∷ idle ∷ []))
        (append_assoc s.sent (q ∷ []) qs)

-- Two threads, and a socket that is not connected: where one calls `send_packet` and finds it not connected,
-- and pushes when an `on_connected` of the other has sent all that waited, both are behind their calls and
-- the socket is connected, but the packet is in the queue, and the client did not get it.
pub packet_stranded :
    (s : Shared) (p : Packet)
    → s.connected ≡ false
    → run (race p s.queue) (idle ∷ idle ∷ []) s ≡ (
      record s {
        connected = true;
        queue = p ∷ [];
        sent = s.sent ++ s.queue;
        requested = s.requested ++ p ∷ [];
      },
      idle ∷ idle ∷ [],
    )
unfolding run turn act advance call
packet_stranded s p down =
    rw down (emptied s.queue p (record s { connected = true; requested = s.requested ++ p ∷ [] }))
