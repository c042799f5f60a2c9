-- ===== src/Server/Threads/Tests.antt =====
-- The theorems on the threads of src/server/Server.cpp at a run in which a client logs in and the server
-- is destroyed.
use pirate_servers.Base.{
  ◌≤◌, ◌≡◌, ◌⊎◌, refl, true, false, none, some, List, [], ◌∷◌, length, map, inr,
}
use pirate_servers.Base.Interleaving.{Interleaving}
use pirate_servers.Base.Outcome.{ok}
use pirate_servers.Base.Place.{in_call, ended}
use pirate_servers.Defines.{server_info}
use pirate_servers.Wire.{Message}
use pirate_servers.Server.{
  Server, Passed, to_shipdeck, to_clients, ship_listener_step, ship_listener_task,
  client_listener_task,
}
use pirate_servers.Server.Threads.{
  Process, Step, Steps, polled, destroying, started, user_waits, ship_waits, ship_ends, ship_round,
  client_waits, client_round, here, next, destroyed,
}
use pirate_servers.Server.Threads.Traffic.{to_deck, to_crew, from_crew}
use pirate_servers.Server.Threads.Measure.{count}
use pirate_servers.Server.Threads.Ending.{arrived, destructor_ends}
use pirate_servers.Server.Threads.Order.{server_passes_in_order}

-- Frames that were sent are left empty.
abbrev pub emptied : Message → Message
emptied = map (λ frame. "")

abbrev pub running : Server
running = record { info = server_info "here"; alive = true }

abbrev pub login_message : Message
login_message = "A" ∷ "CREW" ∷ "LOGIN" ∷ "ann" ∷ "pw" ∷ []

abbrev ack : Message
ack = "A" ∷ "SHIP" ∷ "ACK" ∷ []

-- The user's thread waits for a line, a login has gone to the deck and its answer to the crew.
abbrev pub answered : Process
answered = record (started running) {
  user_input_thread = in_call;
  rounds = polled none (some ack) false ∷ [];
  crew_rounds = (true, some login_message) ∷ [];
  passed = to_shipdeck login_message ∷ to_clients ack ∷ [];
}

pub reaches_answered : Steps emptied (started running) answered
unfolding client_listener_task ship_listener_step
reaches_answered =
    next
      (next
        (next (next (next here (user_waits refl refl)) (client_waits refl refl))
          (client_round login_message refl))
        (ship_waits refl refl))
      (ship_round none (some ack) (to_clients ack ∷ []) refl (ack, inr refl) refl)

crew_gets_ack : to_crew answered.passed ≡ ack ∷ []
unfolding to_crew
crew_gets_ack = refl

server_passes_in_order_example :
    (out : List Passed) × (ship_listener_task emptied answered.rounds ≡ ok out)
    × (to_crew answered.passed ≡ to_crew out)
    × Interleaving (to_deck out) (from_crew answered.crew_rounds) (to_deck answered.passed)
server_passes_in_order_example = server_passes_in_order emptied running answered reaches_answered

abbrev closing : Process
closing = destroying true true answered

abbrev ship_ended : Process
ship_ended = record closing { ship_listener_thread = ended }

ends_ship : Steps emptied closing ship_ended
ends_ship = next here (ship_ends refl refl)

destructor_ends_example :
    (count ends_ship ≤ 9)
    × (length ship_ended.typed ≤ 1)
    × ((ship_ended.main ≡ destroyed)
        ⊎ ((r : Process) × Step emptied ship_ended r
            × (arrived r ≡ arrived ship_ended)
            × ((r.typed ≡ ship_ended.typed) ⊎ (ship_ended.user_input_thread ≡ in_call))))
destructor_ends_example = destructor_ends emptied answered ship_ended ends_ship
