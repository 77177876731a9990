-- ===== src/Tests/Playing.antt =====
-- The Java client with a server.
use taquin_client_project.Base.{
  ◌-◌, ◌≡◌, refl, arith, Bytes, codes, to_string, to_int32, bytes_eq, if◌then◌else◌, pos, none,
  some, List, [], ◌∷◌, length, true,
}
use taquin_client_project.Result.{ok, null_pointer, out_of_range}
use taquin_client_project.Solver.Graph.{Node}
use taquin_client_project.Solver.Graph.Valid.{Reach}
use taquin_client_project.Solver.Text.{bit_set_to_string}
use taquin_client_project.Solver.Player.{
  Puzzle, Player, new_graph, new_player, get_taquin, minus_two,
}
use taquin_client_project.Solver.Player.Hardest.{IsHardest, get_taquin-IsHardest}
use taquin_client_project.Solver.Connection.{
  Json, json, Event, connected, login, get_matriz, solve, ack_solve, error_solve, emit, Connection,
  new_connection, start_server_connection, handle, run, finalize,
}
use taquin_client_project.Solver.Connection.Keeps.{finalize_throws}
use taquin_client_project.Solver.Connection.Replies.{acks, steps}
use taquin_client_project.Solver.Connection.Game.{new_player-IsPlayer, game_solved}
use taquin_client_project.Solver.Connection.Sizes.{unknown_size_throws}
use taquin_client_project.Tests.Solving.{
  parse_int, parse_int-to_string, puzzle, player, new_graph-puzzle,
}
use taquin_client_project.Tests.Polling.{poll, poll-IsPoll}

-- An object of two texts.
abbrev object : Bytes → Bytes → Bytes → Bytes → Json
object k v k' v' key = if bytes_eq k key then some v else if bytes_eq k' key then some v' else none

abbrev sizes : Bytes → Json
sizes n = object (codes "n_size") n (codes "by") (codes "server")

abbrev boards : Bytes → Json
boards s = object (codes "id") (codes "7") (codes "matriz") s

-- A client of the constructor that has logged in.
abbrev before : List Event
before =
    connected
    ∷ login (json (object (codes "id") (codes "7") (codes "numUsers") (codes "1")) ∷ [])
    ∷ []

made_player : (p : Player) × (new_player poll ≡ some (ok p))
made_player = let (p, made, _) = new_player-IsPlayer poll poll-IsPoll in (p, made)

abbrev fresh : Connection
fresh = new_connection (codes "host") (codes "JAVA") made_player.0

fresh-id : (run parse_int before fresh).0.id ≡ some (codes "7")
unfolding run new_connection bytes_eq
fresh-id = refl

get_taquin-IsHardest_example :
    (s : Bytes) × (a : Node) × (bs : List Node) × (get_taquin (pos 2) player
      ≡ (record player { size = minus_two (pos 2) }, ok s))
    × (bit_set_to_string 2 2 8 a.taquin_bs ≡ ok s)
    × Reach puzzle.taquin a
    × IsHardest puzzle.taquin a bs
unfolding to_int32
get_taquin-IsHardest_example =
    get_taquin-IsHardest poll 2 puzzle player poll-IsPoll (omega arith) (omega arith)
      new_graph-puzzle refl

game_solved_example :
    (z : Puzzle) × (s : Bytes) × (a : Node) × (bs : List Node) × (last : Connection) × (new_graph
        poll 3
      ≡ some (ok z))
    × (bit_set_to_string z.taquin.n z.taquin.nbits z.taquin.size_bs a.taquin_bs ≡ ok s)
    × Reach z.taquin a
    × IsHardest z.taquin a bs
    × (run parse_int
          (get_matriz (json (sizes (to_string 3)) ∷ [])
            ∷ solve (json (boards s) ∷ [])
            ∷ acks (length bs - 1))
          (run parse_int before fresh).0
        ≡ (last, emit (codes "get-matriz-reply") (some s) ∷ steps 0 bs, none))
unfolding bytes_eq
game_solved_example =
    game_solved poll parse_int 3 made_player.0 (codes "host") (codes "JAVA") (codes "7") before
      (sizes (to_string 3)) boards poll-IsPoll parse_int-to_string (omega arith) (omega arith)
      made_player.1 fresh-id refl (λ s. refl) (λ s. refl)

unknown_size_throws_example :
    (c1 c2 : Connection) × (handle parse_int
        (get_matriz (json (sizes (to_string 4)) ∷ []))
        (run parse_int before fresh).0
      ≡ (c1, [], some out_of_range))
    × (c1.player.size ≡ minus_two (pos 4))
    × (handle parse_int (solve (json (boards (codes "1 2 0 3")) ∷ [])) c1
        ≡ (c2, [], some out_of_range))
    × (handle parse_int ack_solve c1 ≡ (c1, [], some out_of_range))
    × (handle parse_int error_solve c1 ≡ (c1, [], some out_of_range))
unfolding bytes_eq
unknown_size_throws_example =
    unknown_size_throws poll parse_int (pos 4) made_player.0 (codes "host") (codes "JAVA")
      (codes "7") (to_string 4) (codes "1 2 0 3") before (sizes (to_string 4))
      (boards (codes "1 2 0 3")) poll-IsPoll (omega arith) (omega arith) (λ e. cc) (λ e. cc)
      made_player.1 fresh-id refl (parse_int-to_string 4 (omega arith)) refl refl

finalize_throws_example :
    finalize
      (run parse_int before
        (start_server_connection
          (λ uri. true)
          (new_connection (codes "host") (codes "JAVA") player)).0).0
    ≡ ([], some null_pointer)
finalize_throws_example =
    finalize_throws (λ uri. true) parse_int (codes "host") (codes "JAVA") player before
