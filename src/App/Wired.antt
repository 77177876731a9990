-- ===== src/App/Wired.antt =====
-- main.cpp on its socket: what `bind_events` and `loginServer` bind, and what a handler asks of the socket.
use taquin_client_project.Base.{
  ℕ, ◌≡◌, ◌≢◌, ◌<◌, ◌^◌, refl, ap, ◌∙◌, Bytes, codes, bytes_eq, false, none, some, List, [], ◌∷◌,
  zero, suc, ◌==◌, if◌then◌else◌, negsuc,
}
use taquin_client_project.Base.SortedMap.{find, find-put, bytes_key}
use taquin_client_project.Result.{Result, ok, err, ◌>>=◌}
use taquin_client_project.Message.{ptr}
use taquin_client_project.Message.Lists.{from_text, to_event_message}
use taquin_client_project.Packet.{Packet, message_packet}
use taquin_client_project.Socket
use taquin_client_project.Socket.{Socket, get_message, send, on}
use taquin_client_project.Client.Crossing.{IsReady, emit-IsReady}
use taquin_client_project.App.{
  App, Effect, emit, off, highlight, em, out, Event, login, new_message, start, get_matriz, solve,
  ack_solve, error_solve, handle,
}
use taquin_client_project.App.Steps.{sent}

abbrev pub topic : Event → Bytes
topic login = codes "login"
topic new_message = codes "new message"
topic start = codes "start"
topic get_matriz = codes "get-matriz"
topic solve = codes "solve"
topic ack_solve = codes "ack-solve"
topic error_solve = codes "error-solve"

-- The listener of an event, as a number, and back.
abbrev pub listener : Event → ℕ
listener login = 0
listener new_message = 1
listener start = 2
listener get_matriz = 3
listener solve = 4
listener ack_solve = 5
listener error_solve = 6

abbrev pub later : ℕ → Event
later l =
    if l == 0
    then new_message
    else if l == 1
    then start
    else if l == 2
    then get_matriz
    else if l == 3
    then solve
    else if l == 4
    then ack_solve
    else error_solve

abbrev pub listened : ℕ → Event
listened zero = login
listened (suc l) = later l

abbrev pub bind : Event → Socket → Socket
bind e s = on (topic e) (listener e) s

-- `on("login", ...)` of `loginServer`
unfoldable pub bind_login : Socket → Socket
unfolding on
bind_login s = bind login s

unfoldable pub bind_events : Socket → Socket
unfolding on
bind_events s =
    bind error_solve
      (bind ack_solve (bind solve (bind get_matriz (bind start (bind new_message s)))))

-- What a handler does to the socket, in order.
unfoldable pub do_effects : List Effect → Socket → Result Socket
do_effects [] s = ok s
do_effects (emit name text ∷ es) s = Socket.emit name (from_text text) none s >>= do_effects es
do_effects (off name ∷ es) s = do_effects es (Socket.off name s)
do_effects (_ ∷ es) s = do_effects es s

-- The socket after a handler; where the handler faults, what follows is left open.
abbrev pub socket_or : Socket → Result Socket → Socket
socket_or s (ok s') = s'
socket_or s (err f) = s

-- What calling a listener does, in a state of the program.
unfoldable pub invoke_app : App → ℕ → Socket.Event → Socket → Socket.Event × Socket
unfolding do_effects
invoke_app a l ev s =
    (ev, socket_or s (handle (listened l) a (get_message ev) >>= λ (a', did). do_effects did s))

pub bind_events-topic :
    (e : Event) (s : Socket)
    → e ≢ login
    → find (topic e) (bind_events s).bindings ≡ some (listener e)
unfolding bind_events on bytes_eq
bind_events-topic login s h = absurd (h refl)
bind_events-topic new_message s h = simp (find-put)
bind_events-topic start s h = simp (find-put)
bind_events-topic get_matriz s h = simp (find-put)
bind_events-topic solve s h = simp (find-put)
bind_events-topic ack_solve s h = simp (find-put)
bind_events-topic error_solve s h = simp (find-put)

listened-listener : (e : Event) → listened (listener e) ≡ e
listened-listener login = refl
listened-listener new_message = refl
listened-listener start = refl
listened-listener get_matriz = refl
listened-listener solve = refl
listened-listener ack_solve = refl
listened-listener error_solve = refl

-- Effects that send nothing leave the log of the socket.
do_effects-nothing :
    (es : List Effect) (s : Socket)
    → sent es ≡ []
    → (s' : Socket) × (do_effects es s ≡ ok s') × (s'.log ≡ s.log)
unfolding do_effects Socket.off
do_effects-nothing [] s e = (s, refl, refl)
do_effects-nothing (emit name text ∷ es) s e = cc
do_effects-nothing (off name ∷ es) s e = do_effects-nothing es (Socket.off name s) e
do_effects-nothing (highlight text ∷ es) s e = do_effects-nothing es s e
do_effects-nothing (em text ∷ es) s e = do_effects-nothing es s e
do_effects-nothing (out text ∷ es) s e = do_effects-nothing es s e

abbrev head_or : Bytes × Bytes → List (Bytes × Bytes) → Bytes × Bytes
head_or d [] = d
head_or d (x ∷ l) = x

abbrev rest_of : List (Bytes × Bytes) → List (Bytes × Bytes)
rest_of [] = []
rest_of (x ∷ l) = l

-- The one event that effects send.
pub do_effects-one :
    (es : List Effect) (name text : Bytes) (s : Socket)
    → sent es ≡ (name, text) ∷ []
    → IsReady s
    → s.next_id < 2 ^ 31
    → (p : Packet) × (s' : Socket) × (message_packet s.nsp
          (ptr (to_event_message name (from_text text)))
          (negsuc 0)
          false
        ≡ ok p)
      × (do_effects es s ≡ ok s')
      × (s'.log ≡ send p ∷ [])
unfolding do_effects Socket.off
do_effects-one [] name text s e v h = cc
do_effects-one (emit name' text' ∷ es) name text s e v h =
    let same_name : name' ≡ name = ap (λ l. (head_or (name, text) l).0) e in
    let same_text : text' ≡ text = ap (λ l. (head_or (name, text) l).1) e in
    let (p, s1, made, emitted, asked) = emit-IsReady name (from_text text) none s v h in
    let (s', runs, kept) = do_effects-nothing es s1 (ap rest_of e) in
    (p, s', made, rw (same_name, same_text, emitted) runs, kept ∙ asked)
do_effects-one (off topic ∷ es) name text s e v h =
    do_effects-one es name text (Socket.off topic s) e
      (record { attached = v.attached; connected = v.connected; queue = v.queue; log = v.log }) h
do_effects-one (highlight _ ∷ es) name text s e v h = do_effects-one es name text s e v h
do_effects-one (em _ ∷ es) name text s e v h = do_effects-one es name text s e v h
do_effects-one (out _ ∷ es) name text s e v h = do_effects-one es name text s e v h

-- What the listener of an event leaves, where its handler sends one event.
pub invoke_app-one :
    (a a' : App) (e : Event) (ev : Socket.Event) (did : List Effect) (name text : Bytes)
    (s : Socket)
    → handle e a (get_message ev) ≡ ok (a', did)
    → sent did ≡ (name, text) ∷ []
    → IsReady s
    → s.next_id < 2 ^ 31
    → (p : Packet) × (s' : Socket) × (message_packet s.nsp
          (ptr (to_event_message name (from_text text)))
          (negsuc 0)
          false
        ≡ ok p)
      × (invoke_app a (listener e) ev s ≡ (ev, s'))
      × (s'.log ≡ send p ∷ [])
unfolding invoke_app
invoke_app-one a a' e ev did name text s handled one v h =
    let (p, s', made, runs, asked) = do_effects-one did name text s one v h in
    (
      p,
      s',
      made,
      ap (λ r. (ev, socket_or s r))
          (ap (λ x. handle x a (get_message ev) >>= λ (b, es). do_effects es s)
              (listened-listener e)
            ∙ ap (λ (r : Result (App × List Effect)). r >>= λ (b, es). do_effects es s) handled
            ∙ runs),
      asked,
    )
