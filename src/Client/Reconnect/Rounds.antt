-- ===== src/Client/Reconnect/Rounds.antt =====
-- A connection that fails again and again: `on_fail` and `timeout_reconnect` of sio_client_impl.cpp in turn.
use taquin_client_project.Base.{
  ℕ, suc, ◌+◌, ◌-◌, ◌^◌, ◌≤◌, ◌<◌, ◌≡◌, refl, arith, subst, ◌∙◌, Bytes, false, List, [], ◌∷◌, ◌++◌,
  Option, none, some, zero,
}
use taquin_client_project.Base.SortedMap.{bytes_key}
use taquin_client_project.Result.{Result, ok, ◌>>=◌}
use taquin_client_project.Packet.{Codec}
use taquin_client_project.Socket.{Socket, on_disconnect}
use taquin_client_project.Client.{
  Client, con_closed, Effect, dispatch_connect, call_listener, call_reconnect, arm_timer,
  reconn_timer, reset_endpoint, if_set,
}
use taquin_client_project.Client.Sockets.{
  IsRegistry, on_disconnect-AsksNothing, sockets_invoke_void-quiet,
}
use taquin_client_project.Client.Connection.{
  Doubles, next_delay, schedule_reconnect, retry_or_fail, timeout_reconnect, reset_states, on_fail,
}

-- The connection attempts that a log asks for.
abbrev attempt : Effect → ℕ
attempt (dispatch_connect uri query) = 1
attempt e = 0

abbrev pub connects : List Effect → ℕ
connects [] = 0
connects (e ∷ rest) = attempt e + connects rest

connects-++ : (xs ys : List Effect) → connects (xs ++ ys) ≡ connects xs + connects ys
connects-++ [] ys = omega arith
connects-++ (e ∷ xs) ys = rw (connects-++ xs ys) (omega arith)

connects-if_set :
    (o : Option ℕ) (f : ℕ → Effect) → ((l : ℕ) → attempt (f l) ≡ 0) → connects (if_set o f) ≡ 0
connects-if_set none f h = refl
connects-if_set (some l) f h = rw (h l) (omega arith)

module _ (codec : Codec) (d : Doubles) where
  -- The connection fails, and the timer of the reconnect fires.
  unfoldable pub failed_round : Client → Result Client
  failed_round c = on_fail codec d c >>= λ c'. ok (timeout_reconnect false c')

  unfoldable pub failed_rounds : ℕ → Client → Result Client
  failed_rounds zero c = ok c
  failed_rounds (suc n) c = failed_round c >>= failed_rounds n

  on_fail-retry :
      (c : Client)
      → IsRegistry c.sockets
      → c.reconn_made < c.reconn_attempts
      → (sockets : List (Bytes × Socket)) × (on_fail codec d c
          ≡ ok (
              schedule_reconnect d
                (record c { con = false; con_state = con_closed; sockets = sockets })))
        × IsRegistry sockets
  unfolding on_fail retry_or_fail
  on_fail-retry c r h =
      let (sockets, runs, kept, found) =
        sockets_invoke_void-quiet codec on_disconnect on_disconnect-AsksNothing
          (record c { con = false; con_state = con_closed }) r in
      (sockets, rw runs (ground arith), kept)

  -- At the last attempt the fail listener is called and no timer is armed.
  on_fail-last :
      (c : Client)
      → IsRegistry c.sockets
      → c.reconn_attempts ≤ c.reconn_made
      → (c' : Client) × (on_fail codec d c ≡ ok c')
        × (c'.log ≡ c.log ++ if_set c.fail_listener call_listener)
        × (c'.con_state ≡ con_closed)
  unfolding on_fail retry_or_fail
  on_fail-last c r h =
      let (sockets, runs, kept, found) =
        sockets_invoke_void-quiet codec on_disconnect on_disconnect-AsksNothing
          (record c { con = false; con_state = con_closed }) r in
      (
        record c {
          con = false;
          con_state = con_closed;
          sockets = sockets;
          log = c.log ++ if_set c.fail_listener call_listener;
        },
        rw runs (ground arith),
        refl,
        refl,
      )

  -- One round that has an attempt left.
  failed_round-counts :
      (c : Client)
      → IsRegistry c.sockets
      → c.reconn_made < c.reconn_attempts
      → c.reconn_attempts < 2 ^ 32
      → (c' : Client) × (failed_round c ≡ ok c')
        × (c'.reconn_made ≡ suc c.reconn_made)
        × (connects c'.log ≡ suc (connects c.log))
        × (c'.reconn_attempts ≡ c.reconn_attempts)
        × (c'.fail_listener ≡ c.fail_listener)
        × IsRegistry c'.sockets
  unfolding failed_round timeout_reconnect schedule_reconnect reset_states
  failed_round-counts c r h small =
      let (sockets, runs, kept) = on_fail-retry c r h in
      (
        timeout_reconnect false (
            schedule_reconnect d
              (record c { con = false; con_state = con_closed; sockets = sockets })),
        rw runs refl,
        omega arith,
        counted
            (next_delay d (record c { con = false; con_state = con_closed; sockets = sockets })),
        refl,
        refl,
        kept,
      )
    where
      counted :
          (delay : ℕ)
          → connects (
              (c.log
                ++ (if_set c.reconnect_listener (λ l. call_reconnect l c.reconn_made delay)
                    ++ arm_timer reconn_timer delay ∷ []))
              ++ reset_endpoint ∷ []
              ++ (if_set c.reconnecting_listener call_listener
                  ++ dispatch_connect c.base_url c.query_string ∷ []))
            ≡ suc (connects c.log)
      counted delay =
          simp
            (
              connects-++,
              connects-if_set c.reconnect_listener (λ l. call_reconnect l c.reconn_made delay)
                  (λ l. refl),
              connects-if_set c.reconnecting_listener call_listener (λ l. refl),
            )
            (omega arith)

  failed_rounds-counts :
      (n : ℕ) (c : Client)
      → IsRegistry c.sockets
      → c.reconn_made + n ≤ c.reconn_attempts
      → c.reconn_attempts < 2 ^ 32
      → (c' : Client) × (failed_rounds n c ≡ ok c')
        × (c'.reconn_made ≡ c.reconn_made + n)
        × (connects c'.log ≡ connects c.log + n)
        × (c'.reconn_attempts ≡ c.reconn_attempts)
        × (c'.fail_listener ≡ c.fail_listener)
        × IsRegistry c'.sockets
  unfolding failed_rounds
  failed_rounds-counts zero c r h small = (c, refl, omega arith, omega arith, refl, refl, r)
  failed_rounds-counts (suc n) c r h small =
      let (c1, runs1, made1, count1, most1, fail1, r1) =
        failed_round-counts c r (omega arith) small in
      let (c2, runs2, made2, count2, most2, fail2, r2) =
        failed_rounds-counts n c1 r1 (rw (made1, most1) (omega arith)) (rw most1 small) in
      (c2, rw runs1 runs2, omega arith, omega arith, most2 ∙ most1, fail2 ∙ fail1, r2)

  -- A client whose sockets form a registry, which made at most as many reconnects as it has attempts (an
  -- `unsigned`), and whose every connection fails: it dispatches one connection for each attempt that it
  -- has left, without a fault. The failure after the last of these tells the fail listener, leaves the
  -- client closed and dispatches nothing.
  pub gives_up_after_attempts :
      (c : Client)
      → IsRegistry c.sockets
      → c.reconn_made ≤ c.reconn_attempts
      → c.reconn_attempts < 2 ^ 32
      → (c1 c2 : Client) × (failed_rounds (c.reconn_attempts - c.reconn_made) c ≡ ok c1)
        × (connects c1.log ≡ connects c.log + (c.reconn_attempts - c.reconn_made))
        × (on_fail codec d c1 ≡ ok c2)
        × (c2.log ≡ c1.log ++ if_set c.fail_listener call_listener)
        × (c2.con_state ≡ con_closed)
  gives_up_after_attempts c r h small =
      let (c1, runs1, made1, count1, most1, fail1, r1) =
        failed_rounds-counts (c.reconn_attempts - c.reconn_made) c r (omega arith) small in
      let (c2, runs2, told, down) = on_fail-last c1 r1 (rw (most1, made1) (omega arith)) in
      (
        c1,
        c2,
        runs1,
        count1,
        runs2,
        subst (λ l. c2.log ≡ c1.log ++ if_set l call_listener) fail1 told,
        down,
      )
