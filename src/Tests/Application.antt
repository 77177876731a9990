-- ===== src/Tests/Application.antt =====
-- Concrete runs of the handlers of main.cpp and of the object messages.
use taquin_client_project.Base.{codes, true, false, bytes_eq, List, [], ◌∷◌, ◌++◌, refl}
use taquin_client_project.Message.{Ptr, Fields, nullptr, ptr, string, object, end, field}
use taquin_client_project.Message.Objects
use taquin_client_project.Message.Objects.{insert, has}
use taquin_client_project.App.{string_at, table, App, Event, login, solve, ack_solve, run, init}
use taquin_client_project.App.Bounds.{IsSafe, run-init-IsSafe}
use taquin_client_project.App.Steps.{Sends, acks, at_step, numbered, solve_round}

-- The first player, logged in.
abbrev pub player : App
player = record (init true) { id = codes "p1" }

abbrev solve_text : Ptr
solve_text = ptr (
    object (
      field (codes "id") (ptr (string (codes "p1")))
        (field (codes "matriz") (ptr (string (codes "1 0 3 2"))) end)))

solve_round_example :
    Sends
      (run player ((solve, solve_text) ∷ (acks 2 nullptr ++ acks 1 nullptr)))
      (at_step player 0)
      (numbered 0 (codes "0 0" ∷ codes "0 1" ∷ codes "1 1" ∷ []))
unfolding init string_at table Objects.find_field bytes_eq
solve_round_example =
    solve_round player solve_text nullptr (codes "1 0 3 2") (codes "0 0")
      (codes "0 1" ∷ codes "1 1" ∷ []) ([] ∷ [] ∷ [] ∷ [] ∷ [] ∷ [] ∷ [] ∷ [])
      (unfold Objects.at in refl) (unfold Objects.at in refl) refl refl

-- A login without an id, and deliveries before it.
abbrev deliveries : List (Event × Ptr)
deliveries = (solve, solve_text) ∷ (ack_solve, nullptr) ∷ (login, nullptr) ∷ []

run-init-IsSafe_example : IsSafe (run (init false) deliveries)
run-init-IsSafe_example = run-init-IsSafe false deliveries

abbrev stored : Fields
stored = field (codes "id") (ptr (string (codes "p1"))) end
