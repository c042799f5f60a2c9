-- ===== src/Deck/LoopTests.antt =====
-- The theorems on the loops of src/server/Shipdeck.cpp at concrete rounds, and runs of them.
use pirate_servers.Base.{ne_of_test, length, ◌≤◌, ◌≡◌, refl, none, some, [], ◌∷◌, true}
use pirate_servers.Base.Map.{contains, lookup, insert}
use pirate_servers.Base.Outcome.{ok}
use pirate_servers.Wire.{Message}
use pirate_servers.Deck.{to_cabins, to_server}
use pirate_servers.Deck.Move.{count_players, leave_cabin, enter_cabin, change_player_cabins}
use pirate_servers.Deck.Crew.{login, handle_crewmate_input}
use pirate_servers.Deck.Services.{handle_services_cabins_input}
use pirate_servers.Deck.Workers.{
  server_listener_step, server_listener_worker, services_cabins_step, services_ships_step,
  services_listener_step, services_listener_worker,
}
use pirate_servers.Deck.Bounds.{crew_input_bounded}
use pirate_servers.Deck.Examples.{in_order, one_cabin, one_client, ann_logs_in, logs_in}

-- A message of a cabin that is neither a registration nor to be sent on.
abbrev idle_message : Message
idle_message = "P" ∷ "NOTE" ∷ []

server_runs :
    server_listener_worker in_order
      (record { alive = true; server = some ann_logs_in; control = true } ∷ [])
      one_cabin
    ≡ ok (
      one_client,
      to_server ("S" ∷ "A" ∷ "SHIP" ∷ "ACK" ∷ [])
          ∷ to_cabins ("" ∷ "DISCONNECT" ∷ "ann" ∷ [])
          ∷ to_cabins ("P" ∷ "JOIN" ∷ "ann" ∷ [])
          ∷ [],
    )
unfolding server_listener_worker server_listener_step handle_crewmate_input login
    change_player_cabins leave_cabin enter_cabin count_players lookup insert
server_runs = refl

services_run :
    services_listener_worker
      (record {
        alive = true;
        cabins = some idle_message;
        info_reply = none;
        ships = none;
        control = true;
      }
        ∷ [])
      one_client
    ≡ ok (one_client, [])
unfolding services_listener_worker services_listener_step services_cabins_step services_ships_step
    handle_services_cabins_input
services_run = refl

crew_input_bounded_example :
    (length one_client.client_map ≤ 1)
    × (length (
          to_server ("S" ∷ "A" ∷ "SHIP" ∷ "ACK" ∷ [])
          ∷ to_cabins ("" ∷ "DISCONNECT" ∷ "ann" ∷ [])
          ∷ to_cabins ("P" ∷ "JOIN" ∷ "ann" ∷ [])
          ∷ [])
        ≤ 3)
    × (contains "S" one_client.client_map ≡ contains "S" one_cabin.client_map)
unfolding lookup
crew_input_bounded_example =
    crew_input_bounded in_order ann_logs_in "A" "S" one_cabin one_client _ (ne_of_test "S" "A" refl)
      refl logs_in
