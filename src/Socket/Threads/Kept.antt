-- ===== src/Socket/Threads/Kept.antt =====
-- No interleaving loses or repeats a packet.
use taquin_client_project.Base.{
  ℕ, zero, suc, ◌+◌, ◌≡◌, refl, ap, arith, Bool-cases, inl, inr, Option, none, some, List, [], ◌∷◌,
  ◌++◌,
}
use taquin_client_project.Packet.{Packet}
use taquin_client_project.Socket.Order.{Traffic, sending, connecting, disconnecting}
use taquin_client_project.Socket.Threads.{
  Shared, Place, idle, testing, pushing, passing, popping, holding, entering, setting, opening,
  leaving, unsetting, clearing, pop, advance, call, act, turn, run, new_shared, idles,
}

module _ (w : Packet → ℕ) where
  -- The packets of a list, counted by w.
  abbrev pub total : List Packet → ℕ
  total [] = 0
  total (p ∷ ps) = w p + total ps

  abbrev pub waits : Option Packet → ℕ
  waits none = 0
  waits (some p) = w p

  -- The packets that a thread still has to push or to send.
  abbrev pub held : Place → ℕ
  held (testing p) = w p
  held (pushing p) = w p
  held (passing p) = w p
  held (popping p) = waits p
  held (holding q p) = w q + waits p
  held at = 0

  abbrev pub held_all : List Place → ℕ
  held_all [] = 0
  held_all (at ∷ rest) = held at + held_all rest

  abbrev pub total_shared : Shared → ℕ
  total_shared s = total s.sent + total s.queue + total s.dropped

  total-append : (ps qs : List Packet) → total (ps ++ qs) ≡ total ps + total qs
  total-append [] qs = omega arith
  total-append (p ∷ ps) qs = omega (arith, total-append ps qs)

  -- What a thread leaves, where `more` is held by the others.
  abbrev Balanced : Shared → ℕ → Type 0
  Balanced s more = total s.requested ≡ total_shared s + more

  pop-Balanced :
      (ps : List Packet) (p : Option Packet) (s : Shared) (more : ℕ)
      → s.queue ≡ ps
      → Balanced s (waits p + more)
      → Balanced (pop ps p s).0 (held (pop ps p s).1 + more)
  unfolding pop
  pop-Balanced [] none s more e h = h
  pop-Balanced [] (some p) s more e h = h
  pop-Balanced (q ∷ qs) p s more e h = omega (arith, h, ap total e)

  advance-Balanced :
      (at : Place) (s : Shared) (more : ℕ)
      → Balanced s (held at + more)
      → Balanced (advance at s).0 (held (advance at s).1 + more)
  unfolding advance
  advance-Balanced idle s more h = h
  advance-Balanced (testing p) s more h = elim (Bool-cases s.connected) [
    | inl e ↦ rw e h
    | inr e ↦ rw e h
  ]
  advance-Balanced (pushing p) s more h = omega (arith, h, total-append s.queue (p ∷ []))
  advance-Balanced (passing p) s more h = omega (arith, h, total-append s.sent (p ∷ []))
  advance-Balanced (popping p) s more h = pop-Balanced s.queue p s more refl h
  advance-Balanced (holding q p) s more h = omega (arith, h, total-append s.sent (q ∷ []))
  advance-Balanced entering s more h = elim (Bool-cases s.connected) [
    | inl e ↦ rw e h
    | inr e ↦ rw e h
  ]
  advance-Balanced setting s more h = h
  advance-Balanced opening s more h = h
  advance-Balanced leaving s more h = elim (Bool-cases s.connected) [
    | inl e ↦ rw e h
    | inr e ↦ rw e h
  ]
  advance-Balanced unsetting s more h = h
  advance-Balanced clearing s more h = omega (arith, h, total-append s.dropped s.queue)

  call-Balanced :
      (c : Traffic) (s : Shared) (more : ℕ)
      → Balanced s more
      → Balanced (call c s).0 (held (call c s).1 + more)
  unfolding call
  call-Balanced (sending p) s more h = omega (arith, h, total-append s.requested (p ∷ []))
  call-Balanced connecting s more h = omega (arith, h)
  call-Balanced disconnecting s more h = omega (arith, h)

  act-Balanced :
      (c : Option Traffic) (at : Place) (s : Shared) (more : ℕ)
      → Balanced s (held at + more)
      → Balanced (act c at s).0 (held (act c at s).1 + more)
  unfolding act
  act-Balanced none at s more h = advance-Balanced at s more h
  act-Balanced (some c) idle s more h = call-Balanced c s more (omega (arith, h))
  act-Balanced (some c) (testing p) s more h = h
  act-Balanced (some c) (pushing p) s more h = h
  act-Balanced (some c) (passing p) s more h = h
  act-Balanced (some c) (popping p) s more h = h
  act-Balanced (some c) (holding q p) s more h = h
  act-Balanced (some c) entering s more h = h
  act-Balanced (some c) setting s more h = h
  act-Balanced (some c) opening s more h = h
  act-Balanced (some c) leaving s more h = h
  act-Balanced (some c) unsetting s more h = h
  act-Balanced (some c) clearing s more h = h

  turn-Balanced :
      (i : ℕ) (c : Option Traffic) (places : List Place) (s : Shared) (more : ℕ)
      → Balanced s (held_all places + more)
      → Balanced (turn i c places s).0 (held_all (turn i c places s).1 + more)
  unfolding turn
  turn-Balanced i c [] s more h = h
  turn-Balanced zero c (at ∷ rest) s more h =
      let after = act-Balanced c at s (held_all rest + more) (omega (arith, h)) in
      omega (arith, after)
  turn-Balanced (suc i) c (at ∷ rest) s more h =
      let after = turn-Balanced i c rest s (held at + more) (omega (arith, h)) in
      omega (arith, after)

  run-Balanced :
      (turns : List (ℕ × Option Traffic)) (places : List Place) (s : Shared)
      → Balanced s (held_all places + 0)
      → Balanced (run turns places s).0 (held_all (run turns places s).1 + 0)
  unfolding run
  run-Balanced [] places s h = h
  run-Balanced ((i, c) ∷ turns) places s h =
      run-Balanced turns (turn i c places s).1 (turn i c places s).0
        (turn-Balanced i c places s 0 h)

  idles-held : (n : ℕ) → held_all (idles n) ≡ 0
  idles-held zero = refl
  idles-held (suc n) = omega (arith, idles-held n)

  -- Any number of threads that call `send_packet`, `on_connected` and `on_disconnect` of a new socket, and any
  -- order of their steps: by any way to count packets, those given to `send_packet` are those that the client
  -- got, those in the queue, those that an `on_disconnect` dropped, and those that a thread is still to push
  -- or to send.
  pub no_packet_lost :
      (n : ℕ) (turns : List (ℕ × Option Traffic))
      → total (run turns (idles n) new_shared).0.requested
        ≡ total (run turns (idles n) new_shared).0.sent
          + total (run turns (idles n) new_shared).0.queue
          + total (run turns (idles n) new_shared).0.dropped
          + held_all (run turns (idles n) new_shared).1
  unfolding new_shared
  no_packet_lost n turns =
      let start = run-Balanced turns (idles n) new_shared (omega (arith, idles-held n)) in
      omega (arith, start)
