-- ===== src/Client/Lost.antt =====
-- A lost connection: `on_fail` and `on_close` of sio_client_impl.cpp.
use taquin_client_project.Base.{
  ℕ, ◌≡◌, refl, arith, subst, sym, ◌∙◌, Bytes, true, false, Bool-cases, inl, inr, Option, none,
  some, ltb,
}
use taquin_client_project.Base.SortedMap.{find, bytes_key}
use taquin_client_project.Result.{ok}
use taquin_client_project.Packet.{Codec}
use taquin_client_project.Socket.{Socket, on_disconnect}
use taquin_client_project.Client.{
  Client, con_closed, CloseCode, normal, policy_violation, abnormal_close, other_code,
}
use taquin_client_project.Client.Sockets.{
  IsRegistry, on_disconnect-AsksNothing, after_each, after_call, sockets_invoke_void-quiet,
}
use taquin_client_project.Client.Connection.{
  Doubles, schedule_reconnect, retry_or_fail, retry_or_close, clear_timers, on_fail, on_close,
}

-- The client is closed, and every socket it stores that is attached to it is not connected.
abbrev pub IsDisconnected : Client → Type 0
IsDisconnected c =
    (c.con_state ≡ con_closed)
    × (c.con ≡ false)
    × ((k : Bytes) (s : Socket)
        → find k c.sockets ≡ some s
        → s.attached ≡ true
        → s.connected ≡ false)

unhooked :
    (id : ℕ) (t : Socket)
    → (after_call on_disconnect id t).attached ≡ true
    → (after_call on_disconnect id t).connected ≡ false
unfolding on_disconnect
unhooked id t h = ground arith

after_disconnect :
    (id : ℕ) (o : Option Socket) (s : Socket)
    → after_each on_disconnect id o none ≡ some s
    → s.attached ≡ true
    → s.connected ≡ false
after_disconnect id none s e h = cc e
after_disconnect id (some t) s e h =
    let same : after_call on_disconnect id t ≡ s = cc e in
    subst (λ u. u.attached ≡ true → u.connected ≡ false) same (unhooked id t) h

retry_or_fail-keeps :
    (d : Doubles) (c : Client)
    → ((retry_or_fail d c).sockets ≡ c.sockets)
      × ((retry_or_fail d c).con_state ≡ c.con_state)
      × ((retry_or_fail d c).con ≡ c.con)
unfolding retry_or_fail schedule_reconnect
retry_or_fail-keeps d c = elim (Bool-cases (ltb c.reconn_made c.reconn_attempts)) [
  | inl e ↦ rw e (refl, refl, refl)
  | inr e ↦ rw e (refl, refl, refl)
]

-- What a dropped connection does behind the sockets.
abbrev retry_or_drop : Doubles → Client → Client
retry_or_drop d c = retry_or_close d other_code c

keeps_dropped :
    (d : Doubles) (c : Client)
    → ((retry_or_drop d c).sockets ≡ c.sockets)
      × ((retry_or_drop d c).con_state ≡ c.con_state)
      × ((retry_or_drop d c).con ≡ c.con)
unfolding retry_or_close schedule_reconnect
keeps_dropped d c = elim (Bool-cases (ltb c.reconn_made c.reconn_attempts)) [
  | inl e ↦ rw e (refl, refl, refl)
  | inr e ↦ rw e (refl, refl, refl)
]

retry_or_close-keeps :
    (d : Doubles) (code : CloseCode) (c : Client)
    → ((retry_or_close d code c).sockets ≡ c.sockets)
      × ((retry_or_close d code c).con_state ≡ c.con_state)
      × ((retry_or_close d code c).con ≡ c.con)
unfolding retry_or_close
retry_or_close-keeps d normal c = (refl, refl, refl)
retry_or_close-keeps d policy_violation c = keeps_dropped d c
retry_or_close-keeps d abnormal_close c = keeps_dropped d c
retry_or_close-keeps d other_code c = keeps_dropped d c

module _ (codec : Codec) (d : Doubles) where
  -- Where the connection fails to open, `on_fail` does not fault, and leaves the client closed with
  -- every attached socket disconnected. The client's sockets form a registry, and do so afterwards.
  pub on_fail-IsDisconnected :
      (c : Client)
      → IsRegistry c.sockets
      → (c' : Client) × (on_fail codec d c ≡ ok c') × IsDisconnected c' × IsRegistry c'.sockets
  unfolding on_fail
  on_fail-IsDisconnected c r =
      let down : Client = record c { con = false; con_state = con_closed } in
      let (sockets, runs, kept, found) =
        sockets_invoke_void-quiet codec on_disconnect on_disconnect-AsksNothing down r in
      let (same, state, gone) = retry_or_fail-keeps d (record down { sockets = sockets }) in
      (
        retry_or_fail d (record down { sockets = sockets }),
        rw runs refl,
        (
          state,
          gone,
          λ k s e.
              after_disconnect c.next_id (find k c.sockets) s
                (sym (found k) ∙ subst (λ m. find k m ≡ some s) same e),
        ),
        subst IsRegistry (sym same) kept,
      )

  -- Where the connection closes, with whatever close code, `on_close` does not fault, and leaves the client
  -- closed with every attached socket disconnected. The client's sockets form a registry, and do so
  -- afterwards.
  pub on_close-IsDisconnected :
      (code : CloseCode) (c : Client)
      → IsRegistry c.sockets
      → (c' : Client) × (on_close codec d code c ≡ ok c')
        × IsDisconnected c'
        × IsRegistry c'.sockets
  unfolding on_close clear_timers
  on_close-IsDisconnected code c r =
      let down : Client = clear_timers (record c { con_state = con_closed; con = false }) in
      let (sockets, runs, kept, found) =
        sockets_invoke_void-quiet codec on_disconnect on_disconnect-AsksNothing down r in
      let (same, state, gone) = retry_or_close-keeps d code (record down { sockets = sockets }) in
      (
        retry_or_close d code (record down { sockets = sockets }),
        rw runs refl,
        (
          state,
          gone,
          λ k s e.
              after_disconnect c.next_id (find k c.sockets) s
                (sym (found k) ∙ subst (λ m. find k m ≡ some s) same e),
        ),
        subst IsRegistry (sym same) kept,
      )
