-- ===== src/Cabin/Tests.antt =====
-- The loop of src/server/Cabin.cpp at three rounds, with a handler that counts and answers.
use pirate_servers.Base.{ℕ, suc, ◌≡◌, true, false, some, List, [], ◌∷◌}
use pirate_servers.Base.Outcome.{Outcome, ok}
use pirate_servers.Wire.{Message}
use pirate_servers.Cabin.Poll.{Round, poll_with_control, handle_all, before_control}
use pirate_servers.Cabin.Loop.{poll_with_control-handle_all}

abbrev echo : Message → ℕ → Outcome (ℕ × List Message)
echo reqs n = ok (suc n, reqs ∷ [])

abbrev rounds : List Round
rounds =
    record { control = false; ready = some ("a" ∷ []) ∷ [] }
    ∷ record { control = true; ready = some ("b" ∷ []) ∷ [] }
    ∷ record { control = false; ready = some ("c" ∷ []) ∷ [] }
    ∷ []

poll_with_control-handle_all_example :
    poll_with_control true (echo ∷ []) rounds 0 ≡ handle_all echo (before_control rounds) 0
poll_with_control-handle_all_example = poll_with_control-handle_all echo rounds 0
