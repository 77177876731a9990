-- ===== src/Socket/Threads/Alone.antt =====
-- A thread that is not interrupted does what the methods of the socket do.
use taquin_client_project.Base.{
  ℕ, ◌≡◌, refl, ap, sym, ◌∙◌, true, Bool-cases, inl, inr, Option, none, some, List, [], ◌∷◌, ◌++◌,
  append-nil, append_assoc,
}
use taquin_client_project.Packet.{Packet}
use taquin_client_project.Socket.{
  Socket, send, opened, cancel, send_packet, on_connected, become_connected, on_disconnect, drain,
  send_queue, drop_timer,
}
use taquin_client_project.Socket.Order.{
  Traffic, sending, connecting, disconnecting, sends, happen, happen_all, requested, requested_all,
  IsFlushed, happen-Keeps, accepted, accepted-happen_all, sends-append, sends-send_queue,
}
use taquin_client_project.Socket.Threads.{
  Shared, Place, idle, popping, behind, pop, advance, call, act, turn, run,
}

-- What the threads see of a socket.
abbrev pub view : Socket → List Packet → List Packet → Shared
view s dropped asked = record {
  connected = s.connected;
  queue = s.queue;
  sent = sends s.log;
  dropped = dropped;
  requested = asked;
}

-- Turns of the one thread.
abbrev loops : List Packet → List (ℕ × Option Traffic)
loops [] = (0, none) ∷ []
loops (q ∷ qs) = (0, none) ∷ (0, none) ∷ loops qs

run-append :
    (ts us : List (ℕ × Option Traffic)) (places : List Place) (s : Shared)
    → run (ts ++ us) places s ≡ run us (run ts places s).1 (run ts places s).0
unfolding run
run-append [] us places s = refl
run-append ((i, c) ∷ ts) us places s = run-append ts us (turn i c places s).1 (turn i c places s).0

loops-emptied :
    (ps : List Packet) (p : Option Packet) (s : Shared)
    → run (loops ps) (popping p ∷ []) (record s { queue = ps })
      ≡ (record s { queue = []; sent = s.sent ++ ps }, behind p ∷ [])
unfolding run turn act advance pop
loops-emptied [] p s =
    ap (λ l. (record s { queue = []; sent = l }, behind p ∷ [])) (sym (append-nil s.sent))
loops-emptied (q ∷ qs) p s =
    loops-emptied qs p (record s { sent = s.sent ++ q ∷ [] })
    ∙ ap (λ l. (record s { queue = []; sent = l }, behind p ∷ [])) (append_assoc s.sent (q ∷ []) qs)

-- The calls that turns begin.
abbrev pub calls : List (ℕ × Option Traffic) → List Traffic
calls [] = []
calls ((i, none) ∷ turns) = calls turns
calls ((i, some t) ∷ turns) = t ∷ calls turns

calls-append : (ts us : List (ℕ × Option Traffic)) → calls (ts ++ us) ≡ calls ts ++ calls us
calls-append [] us = refl
calls-append ((i, none) ∷ ts) us = calls-append ts us
calls-append ((i, some t) ∷ ts) us = ap (◌∷◌ t) (calls-append ts us)

calls-loops : (ps : List Packet) → calls (loops ps) ≡ []
calls-loops [] = refl
calls-loops (q ∷ qs) = calls-loops qs

-- The turns of one call, and what they leave.
abbrev Serves : Traffic → Socket → Type 0
Serves t s =
    (dropped asked : List Packet)
    → (turns : List (ℕ × Option Traffic)) × (calls turns ≡ t ∷ [])
      × (run turns (idle ∷ []) (view s dropped asked)
          ≡ (view (happen t s) dropped (asked ++ requested t), idle ∷ []))

-- The loop of a thread, with one step behind it where that is left.
loops-then :
    (ps : List Packet) (p : Packet) (s : Shared)
    → run (loops ps ++ (0, none) ∷ []) (popping (some p) ∷ []) (record s { queue = ps })
      ≡ (record s { queue = []; sent = (s.sent ++ ps) ++ p ∷ [] }, idle ∷ [])
unfolding run turn act advance
loops-then ps p s =
    run-append (loops ps) ((0, none) ∷ []) (popping (some p) ∷ []) (record s { queue = ps })
    ∙ ap (λ (r : Shared × List Place). run ((0, none) ∷ []) r.1 r.0) (loops-emptied ps (some p) s)

sending-Serves : (p : Packet) (s : Socket) → s.attached ≡ true → Serves (sending p) s
unfolding run turn act advance call send_packet drain
sending-Serves p s a dropped asked = elim (Bool-cases s.connected) [
  | inl c ↦ (
    (0, some (sending p)) ∷ (0, none) ∷ (loops s.queue ++ (0, none) ∷ []),
    ap (◌∷◌ (sending p))
        (calls-append (loops s.queue) ((0, none) ∷ []) ∙ append-nil _ ∙ calls-loops s.queue),
    rw (a, c)
        (loops-then s.queue p (record (view s dropped (asked ++ p ∷ [])) { connected = true })
          ∙ ap
              (λ l. (
                record (view s dropped (asked ++ p ∷ [])) {
                  connected = true;
                  queue = [];
                  sent = l;
                },
                idle ∷ [],
              ))
              (sym (
                sends-append (send_queue s.queue s.log) (send p ∷ [])
                ∙ ap (λ (qs : List Packet). qs ++ p ∷ []) (sends-send_queue s.queue s.log)))),
  )
  | inr c ↦ ((0, some (sending p)) ∷ (0, none) ∷ (0, none) ∷ [], refl, rw (a, c) refl)
]

-- Cancelling the timer is nothing to the threads.
view-drop_timer :
    (s : Socket) (dropped asked : List Packet)
    → view (drop_timer s) dropped asked ≡ view s dropped asked
unfolding drop_timer
view-drop_timer s dropped asked = elim (Bool-cases s.timer) [
  | inl t ↦ rw t (
      ap (λ l. record (view s dropped asked) { sent = l })
        (sends-append s.log (cancel ∷ []) ∙ append-nil (sends s.log)))
  | inr t ↦ rw t refl
]

become-Serves :
    (s : Socket) (dropped asked : List Packet)
    → (turns : List (ℕ × Option Traffic)) × (calls turns ≡ connecting ∷ [])
      × (run turns (idle ∷ []) (view s dropped asked)
          ≡ (view (become_connected s) dropped asked, idle ∷ []))
unfolding run turn act advance call become_connected drain
become-Serves s dropped asked = elim (Bool-cases s.connected) [
  | inl c ↦ ((0, some connecting) ∷ (0, none) ∷ [], refl, rw c refl)
  | inr c ↦ (
    (0, some connecting) ∷ (0, none) ∷ (0, none) ∷ (0, none) ∷ loops s.queue,
    ap (◌∷◌ connecting) (calls-loops s.queue),
    rw c (
        loops-emptied s.queue none (record (view s dropped asked) { connected = true })
        ∙ ap
            (λ l.
              (record (view s dropped asked) { connected = true; queue = []; sent = l }, idle ∷ []))
            (sym (
              sends-send_queue s.queue (s.log ++ opened s.nsp ∷ [])
              ∙ ap (λ (qs : List Packet). qs ++ s.queue)
                  (sends-append s.log (opened s.nsp ∷ []) ∙ append-nil (sends s.log))))),
  )
]

connecting-Serves : (s : Socket) → Serves connecting s
unfolding on_connected
connecting-Serves s dropped asked =
    let (turns, only, runs) = become-Serves (drop_timer s) dropped asked in
    (
      turns,
      only,
      ap (run turns (idle ∷ [])) (sym (view-drop_timer s dropped asked))
          ∙ runs
          ∙ ap (λ l. (view (become_connected (drop_timer s)) dropped l, idle ∷ []))
              (sym (append-nil asked)),
    )

disconnecting-Serves : (s : Socket) → s.attached ≡ true → IsFlushed s → Serves disconnecting s
unfolding run turn act advance call on_disconnect
disconnecting-Serves s a f dropped asked = elim (Bool-cases s.connected) [
  | inl c ↦ (
    (0, some disconnecting) ∷ (0, none) ∷ (0, none) ∷ (0, none) ∷ [],
    refl,
    rw (a, c, f c, append-nil dropped, append-nil asked) refl,
  )
  | inr c ↦ ((0, some disconnecting) ∷ (0, none) ∷ [], refl, rw (a, c, append-nil asked) refl)
]

happen-Serves : (t : Traffic) (s : Socket) → s.attached ≡ true → IsFlushed s → Serves t s
happen-Serves (sending p) s a f = sending-Serves p s a
happen-Serves connecting s a f = connecting-Serves s
happen-Serves disconnecting s a f = disconnecting-Serves s a f

happen_all-served :
    (ts : List Traffic) (s : Socket) (dropped asked : List Packet)
    → s.attached ≡ true
    → IsFlushed s
    → (turns : List (ℕ × Option Traffic)) × (calls turns ≡ ts)
      × (run turns (idle ∷ []) (view s dropped asked)
          ≡ (view (happen_all s ts) dropped (asked ++ requested_all ts), idle ∷ []))
unfolding happen_all run
happen_all-served [] s dropped asked a f =
    ([], refl, ap (λ l. (view s dropped l, idle ∷ [])) (sym (append-nil asked)))
happen_all-served (t ∷ ts) s dropped asked a f =
    let k = happen-Keeps t s a f in
    let (first, one, runs) = happen-Serves t s a f dropped asked in
    let (later, others, ends) =
      happen_all-served ts (happen t s) dropped (asked ++ requested t) k.stays k.flushed in
    (
      first ++ later,
      calls-append first later ∙ ap (λ l. l ++ calls later) one ∙ ap (◌∷◌ t) others,
      run-append first later (idle ∷ []) (view s dropped asked)
          ∙ ap (λ (r : Shared × List Place). run later r.1 r.0) runs
          ∙ ends
          ∙ ap (λ l. (view (happen_all (happen t s) ts) dropped l, idle ∷ []))
              (append_assoc asked (requested t) (requested_all ts)),
    )

-- One thread, and an attached socket in which nothing waits while it is connected. For any list of sends,
-- connects and disconnects, turns in which the thread begins these calls, each when the one before is at its
-- end, end it with what the methods of the socket leave one after another, and nothing dropped. There the
-- packets that the client got, and then those that wait, are those of the start followed by those given
-- to the calls, in order; and if the socket is connected at the end, the client got all of them.
pub served_in_order :
    (ts : List Traffic) (s : Socket) (dropped asked : List Packet)
    → s.attached ≡ true
    → IsFlushed s
    → (turns : List (ℕ × Option Traffic)) × (calls turns ≡ ts)
      × (run turns (idle ∷ []) (view s dropped asked)
          ≡ (view (happen_all s ts) dropped (asked ++ requested_all ts), idle ∷ []))
      × (accepted (happen_all s ts) ≡ accepted s ++ requested_all ts)
      × ((happen_all s ts).connected ≡ true
          → sends (happen_all s ts).log ≡ accepted s ++ requested_all ts)
served_in_order ts s dropped asked a f =
    let (turns, begun, ends) = happen_all-served ts s dropped asked a f in
    let (order, all) = accepted-happen_all s ts a f in (turns, begun, ends, order, all)
