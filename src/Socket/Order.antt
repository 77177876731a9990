-- ===== src/Socket/Order.antt =====
-- Packets leave a socket in the order in which they are sent, across connects and disconnects that run one after
-- another.
use taquin_client_project.Base.{
  Bytes, true, List, [], ◌∷◌, ◌++◌, append-nil, append_assoc, ◌≡◌, refl, ap, sym, ◌∙◌, arith, subst,
  Bool-cases, inl, inr,
}
use taquin_client_project.Packet.{Packet}
use taquin_client_project.Socket.{
  Socket, Action, send, opened, cancel, send_packet, on_connected, become_connected, on_disconnect,
  drain, send_queue, drop_timer,
}

-- The packets that went to the client.
abbrev pub sends : List Action → List Packet
sends [] = []
sends (send p ∷ as') = p ∷ sends as'
sends (_ ∷ as') = sends as'

pub sends-append : (xs ys : List Action) → sends (xs ++ ys) ≡ sends xs ++ sends ys
sends-append [] ys = refl
sends-append (send p ∷ xs) ys = ap (◌∷◌ p) (sends-append xs ys)
sends-append (_ ∷ xs) ys = sends-append xs ys

-- Sent or waiting, oldest first.
abbrev pub accepted : Socket → List Packet
accepted s = sends s.log ++ s.queue

-- Nothing waits in a connected socket.
abbrev pub IsFlushed : Socket → Type 0
IsFlushed s = s.connected ≡ true → s.queue ≡ []

pub sends-send_queue :
    (ps : List Packet) (log : List Action) → sends (send_queue ps log) ≡ sends log ++ ps
unfolding send_queue
sends-send_queue [] log = sym (append-nil (sends log))
sends-send_queue (p ∷ ps) log =
    sends-send_queue ps (log ++ send p ∷ [])
    ∙ ap (λ (qs : List Packet). qs ++ ps) (sends-append log (send p ∷ []))
    ∙ append_assoc (sends log) (p ∷ []) ps

-- A call of a method of an attached socket between two closings.
pub data Traffic : Type 0 where
  sending : Packet → Traffic
  connecting disconnecting : Traffic

abbrev pub happen : Traffic → Socket → Socket
happen (sending p) = send_packet p
happen connecting = on_connected
happen disconnecting = on_disconnect

abbrev pub requested : Traffic → List Packet
requested (sending p) = p ∷ []
requested _ = []

unfoldable pub happen_all : Socket → List Traffic → Socket
happen_all s [] = s
happen_all s (t ∷ ts) = happen_all (happen t s) ts

abbrev pub requested_all : List Traffic → List Packet
requested_all [] = []
requested_all (t ∷ ts) = requested t ++ requested_all ts

-- One step of the traffic.
pub record Keeps (s s' : Socket) (ps : List Packet) : Type 0 where
  pub stays : s'.attached ≡ true
  pub flushed : IsFlushed s'
  pub order : accepted s' ≡ accepted s ++ ps

flushed_order :
    (ps : List Packet) (log : List Action) (p : Packet)
    → sends (send_queue ps log ++ send p ∷ []) ++ [] ≡ (sends log ++ ps) ++ p ∷ []
flushed_order ps log p =
    append-nil _
    ∙ sends-append (send_queue ps log) (send p ∷ [])
    ∙ ap (λ (qs : List Packet). qs ++ p ∷ []) (sends-send_queue ps log)

pub sending-Keeps :
    (p : Packet) (s : Socket) → s.attached ≡ true → Keeps s (send_packet p s) (p ∷ [])
unfolding send_packet drain
sending-Keeps p s a = elim (Bool-cases s.connected) [
  | inl c ↦ record {
    stays = ground (arith, a, c);
    flushed = ground (arith, a, c);
    order = rw (a, c) (flushed_order s.queue s.log p);
  }
  | inr c ↦ record {
    stays = ground (arith, a, c);
    flushed = λ h. cc (h, a, c);
    order = rw (a, c) (sym (append_assoc (sends s.log) s.queue (p ∷ [])));
  }
]

Keeps-same : (s s' : Socket) → s ≡ s' → s.attached ≡ true → IsFlushed s → Keeps s s' []
Keeps-same s s' e a f =
    subst (λ t. Keeps s t []) e (record { stays = a; flushed = f; order = sym (append-nil _) })

dropping-Keeps : (s : Socket) → s.attached ≡ true → IsFlushed s → Keeps s (drop_timer s) []
unfolding drop_timer
dropping-Keeps s a f = elim (Bool-cases s.timer) [
  | inl t ↦ record {
    stays = rw t a;
    flushed = ground (arith, t, f);
    order = rw t (
        ap (λ (ps : List Packet). ps ++ s.queue)
          (sends-append s.log (cancel ∷ []) ∙ append-nil (sends s.log))
        ∙ sym (append-nil (accepted s)));
  }
  | inr t ↦ Keeps-same s (drop_timer s) (rw t) a f
]

connected_order :
    (ps : List Packet) (log : List Action) (nsp : Bytes)
    → sends (send_queue ps (log ++ opened nsp ∷ [])) ++ [] ≡ (sends log ++ ps) ++ []
connected_order ps log nsp =
    ap (λ (qs : List Packet). qs ++ [])
      (sends-send_queue ps (log ++ opened nsp ∷ [])
        ∙ ap (λ (qs : List Packet). qs ++ ps)
            (sends-append log (opened nsp ∷ []) ∙ append-nil (sends log)))

becoming-Keeps : (s : Socket) → s.attached ≡ true → IsFlushed s → Keeps s (become_connected s) []
unfolding become_connected drain
becoming-Keeps s a f = elim (Bool-cases s.connected) [
  | inl c ↦ Keeps-same s (become_connected s) (rw c) a f
  | inr c ↦ record {
    stays = rw c a;
    flushed = λ h. rw c;
    order = rw c (connected_order s.queue s.log s.nsp);
  }
]

Keeps-trans : (s t u : Socket) → Keeps s t [] → Keeps t u [] → Keeps s u []
Keeps-trans s t u h k = record {
  stays = k.stays;
  flushed = k.flushed;
  order = k.order ∙ append-nil (accepted t) ∙ h.order;
}

connecting-Keeps : (s : Socket) → s.attached ≡ true → IsFlushed s → Keeps s (on_connected s) []
unfolding on_connected
connecting-Keeps s a f =
    let d = dropping-Keeps s a f in
    Keeps-trans s (drop_timer s) (become_connected (drop_timer s)) d
      (becoming-Keeps (drop_timer s) d.stays d.flushed)

disconnecting-Keeps : (s : Socket) → s.attached ≡ true → IsFlushed s → Keeps s (on_disconnect s) []
unfolding on_disconnect
disconnecting-Keeps s a f = elim (Bool-cases s.connected) [
  | inl c ↦ record {
    stays = ground (arith, a, c);
    flushed = ground (arith, a, c);
    order = rw (a, c, f c) (sym (append-nil _));
  }
  | inr c ↦ Keeps-same s (on_disconnect s) (rw (a, c)) a f
]

pub happen-Keeps :
    (t : Traffic) (s : Socket)
    → s.attached ≡ true
    → IsFlushed s
    → Keeps s (happen t s) (requested t)
happen-Keeps (sending p) s a f = sending-Keeps p s a
happen-Keeps connecting s a f = connecting-Keeps s a f
happen-Keeps disconnecting s a f = disconnecting-Keeps s a f

-- From an attached socket in which nothing waits while it is connected, whatever mixture of sends,
-- connects and disconnects runs, each to its end before the next: the packets sent to the client, followed by those that wait, are
-- those of the start followed by those requested, in order, none lost or repeated; and if it is
-- connected at the end, nothing waits, so all of them have been sent.
pub accepted-happen_all :
    (s : Socket) (ts : List Traffic)
    → s.attached ≡ true
    → IsFlushed s
    → (accepted (happen_all s ts) ≡ accepted s ++ requested_all ts)
      × ((happen_all s ts).connected ≡ true
          → sends (happen_all s ts).log ≡ accepted s ++ requested_all ts)
unfolding happen_all
accepted-happen_all s [] a f =
    (sym (append-nil _), λ c. rw (f c) (sym (append-nil _ ∙ append-nil _)))
accepted-happen_all s (t ∷ ts) a f =
    let k = happen-Keeps t s a f in
    let (order, sent) = accepted-happen_all (happen t s) ts k.stays k.flushed in
    let regroup : accepted (happen t s) ++ requested_all ts ≡ accepted s ++ requested_all (t ∷ ts) =
      ap (λ (qs : List Packet). qs ++ requested_all ts) k.order
      ∙ append_assoc (accepted s) (requested t) (requested_all ts) in
    (order ∙ regroup, λ c. sent c ∙ regroup)
