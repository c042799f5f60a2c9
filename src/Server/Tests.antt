-- ===== src/Server/Tests.antt =====
-- The theorems on the loops of src/server/Server.cpp at concrete lines and rounds.
use pirate_servers.Base.{◌≡◌, refl, Bool, true, false, Option, none, some, List, [], ◌∷◌, map}
use pirate_servers.Base.Outcome.{ok}
use pirate_servers.Wire.{Message}
use pirate_servers.Defines.{server_info}
use pirate_servers.Server.{Server, to_clients, ship_listener_task, user_input_task}
use pirate_servers.Server.Routes.{
  quiet_rounds, deck_messages, ship_listener_passes_on, has_line, user_input_task_quits,
}

abbrev alive_server : Server
alive_server = record { info = server_info "tcp://*:"; alive = true }

-- Frames that were sent are left empty.
abbrev emptied : Message → Message
emptied = map (λ frame. "")

-- The deck speaks in the round of the control message, and in one behind it.
abbrev deck_speaks : List (Bool × Option Message × Bool)
deck_speaks =
    (true, some ("A" ∷ "hi" ∷ []), false)
    ∷ (true, none, false)
    ∷ (true, some ("B" ∷ "ho" ∷ []), true)
    ∷ (true, some ("A" ∷ "late" ∷ []), false)
    ∷ []

user_input_task_quits_example :
    user_input_task ("hello" ∷ "/quite" ∷ "/quit" ∷ "on" ∷ []) alive_server
    ≡ ok (record alive_server { alive = false })
unfolding has_line
user_input_task_quits_example =
    user_input_task_quits ("hello" ∷ "/quite" ∷ "/quit" ∷ "on" ∷ []) alive_server refl

ship_listener_passes_on_example :
    ship_listener_task emptied (quiet_rounds deck_speaks)
    ≡ ok (to_clients ("A" ∷ "hi" ∷ []) ∷ to_clients ("B" ∷ "ho" ∷ []) ∷ [])
unfolding deck_messages
ship_listener_passes_on_example = ship_listener_passes_on emptied deck_speaks
