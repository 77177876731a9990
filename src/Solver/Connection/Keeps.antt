-- ===== src/Solver/Connection/Keeps.antt =====
-- What no event changes in the Java client.
use taquin_client_project.Base.{
  ◌≡◌, ◌∙◌, refl, arith, Bytes, Bool, Bool-cases, inl, inr, codes, ℤ, Option, none, some, List, [],
  ◌∷◌, ◌++◌,
}
use taquin_client_project.Result.{Result, ok, err, bad_cast, null_pointer}
use taquin_client_project.Solver.Player.{
  Player, get_taquin, solve_taquin, solve_next_step, error_step,
}
use taquin_client_project.Solver.Connection.{
  Json, Argument, json, null_argument, other_argument, Effect, Connection, Outcome, severe,
  and_then, with_text, with_object, on_login, reply, on_get_matriz, is_id, on_solve, Event,
  connected, start, ack_solve, error_solve, disconnected, login, get_matriz, solve, handle, run,
  finalize, start_server_connection, new_connection,
}

-- The graphs are those of the constructor, and the field `socket` is as it was.
pub record Keeps (c c' : Connection) : Type 0 where
  pub graphs : c'.player.graphs ≡ c.player.graphs
  pub socket : c'.socket ≡ c.socket

kept_refl : (c : Connection) → Keeps c c
kept_refl c = record { graphs = refl; socket = refl }

kept_trans : (c c' c'' : Connection) → Keeps c c' → Keeps c' c'' → Keeps c c''
kept_trans c c' c'' h k = record { graphs = k.graphs ∙ h.graphs; socket = k.socket ∙ h.socket }

solve_taquin-graphs :
    (parse_int : Bytes → Option ℤ) (matriz : Bytes) (p : Player)
    → (solve_taquin parse_int matriz p).0.graphs ≡ p.graphs
unfolding solve_taquin
solve_taquin-graphs parse_int matriz p = ground arith

solve_next_step-graphs : (p : Player) → (solve_next_step p).0.graphs ≡ p.graphs
unfolding solve_next_step
solve_next_step-graphs p = ground arith

get_taquin-graphs : (size : ℤ) (p : Player) → (get_taquin size p).0.graphs ≡ p.graphs
unfolding get_taquin
get_taquin-graphs size p = refl

reply-Keeps :
    (topic : Bytes) (c : Connection) (r : Player × Result Bytes)
    → r.0.graphs ≡ c.player.graphs
    → Keeps c (reply topic c r).0
unfolding reply
reply-Keeps topic c (p, ok s) e = record { graphs = e; socket = refl }
reply-Keeps topic c (p, err f) e = record { graphs = e; socket = refl }

module _ (c : Connection) where
  with_text-Keeps :
      (did : List Effect) (o : Option Json) (key : Bytes) (f : Bytes → Outcome)
      → ((v : Bytes) → Keeps c (f v).0)
      → Keeps c (with_text c did o key f).0
  unfolding with_text
  with_text-Keeps did none key f h = kept_refl c
  with_text-Keeps did (some o) key f h = go (o key)
    where
      go :
          (t : Option Bytes)
          → Keeps c
              (elim t as (λ x. Outcome) [ none ↦ (c, did ++ severe ∷ [], none) | some v ↦ f v ]).0
      go none = kept_refl c
      go (some v) = h v

  with_object-Keeps :
      (args : List Argument) (f : Option Json → Outcome)
      → ((o : Option Json) → Keeps c (f o).0)
      → Keeps c (with_object c args f).0
  unfolding with_object
  with_object-Keeps [] f h = kept_refl c
  with_object-Keeps (json o ∷ args) f h = h (some o)
  with_object-Keeps (null_argument ∷ args) f h = h none
  with_object-Keeps (other_argument ∷ args) f h = kept_refl c

  on_login-Keeps : (args : List Argument) → Keeps c (on_login args c).0
  unfolding on_login
  on_login-Keeps args =
      with_object-Keeps args _
        λ o. with_text-Keeps _ o _ _ λ v. record { graphs = refl; socket = refl }

  module _ (parse_int : Bytes → Option ℤ) where
    on_get_matriz-Keeps : (args : List Argument) → Keeps c (on_get_matriz parse_int args c).0
    unfolding on_get_matriz
    on_get_matriz-Keeps args =
        with_object-Keeps args _ λ o. with_text-Keeps _ o _ _ λ v. go (parse_int v)
      where
        go :
            (t : Option ℤ)
            → Keeps c
                (elim t as (λ x. Outcome) [
                  | none ↦ (c, [], some bad_cast)
                  | some n ↦ reply (codes "get-matriz-reply") c (get_taquin n c.player)
                ]).0
        go none = kept_refl c
        go (some n) = reply-Keeps _ c (get_taquin n c.player) (get_taquin-graphs n c.player)

    on_solve-Keeps : (args : List Argument) → Keeps c (on_solve parse_int args c).0
    unfolding on_solve
    on_solve-Keeps args = with_object-Keeps args _ λ o. with_text-Keeps _ o _ _ λ v.
        elim (Bool-cases (is_id v c.id)) [
          | inr other ↦ rw other (kept_refl c)
          | inl mine ↦ rw mine (
              with_text-Keeps _ o _ _ λ matriz.
                reply-Keeps _ c (solve_taquin parse_int matriz c.player)
                  (solve_taquin-graphs parse_int matriz c.player))
        ]

    handle-Keeps : (e : Event) → Keeps c (handle parse_int e c).0
    unfolding handle
    handle-Keeps connected = kept_refl c
    handle-Keeps (login args) = on_login-Keeps args
    handle-Keeps start = kept_refl c
    handle-Keeps (get_matriz args) = on_get_matriz-Keeps args
    handle-Keeps (solve args) = on_solve-Keeps args
    handle-Keeps ack_solve =
        reply-Keeps _ c (solve_next_step c.player) (solve_next_step-graphs c.player)
    handle-Keeps error_solve = reply-Keeps _ c (error_step c.player) refl
    handle-Keeps disconnected = kept_refl c

and_then-Keeps :
    (c : Connection) (r : Outcome) (rest : Connection → Outcome)
    → Keeps c r.0
    → ((c' : Connection) → Keeps c' (rest c').0)
    → Keeps c (and_then r rest).0
unfolding and_then
and_then-Keeps c (c', did, some f) rest k h = k
and_then-Keeps c (c', did, none) rest k h = kept_trans c c' (rest c').0 k (h c')

pub run-Keeps :
    (parse_int : Bytes → Option ℤ) (es : List Event) (c : Connection)
    → Keeps c (run parse_int es c).0
unfolding run
run-Keeps parse_int [] c = kept_refl c
run-Keeps parse_int (e ∷ es) c =
    and_then-Keeps c (handle parse_int e c) (run parse_int es) (handle-Keeps c parse_int e)
      (run-Keeps parse_int es)

-- A client that `startServerConnection` was called on, whatever its host, throws a null pointer in
-- `finalize` after any events, and closes nothing.
pub finalize_throws :
    (is_uri : Bytes → Bool) (parse_int : Bytes → Option ℤ) (hostnambe username : Bytes)
    (player : Player) (es : List Event)
    → finalize
        (run parse_int es
          (start_server_connection is_uri (new_connection hostnambe username player)).0).0
      ≡ ([], some null_pointer)
unfolding finalize start_server_connection new_connection
finalize_throws is_uri parse_int hostnambe username player es =
    let c = (start_server_connection is_uri (new_connection hostnambe username player)).0 in
    rw (run-Keeps parse_int es c).socket refl
