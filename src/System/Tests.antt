-- ===== src/System/Tests.antt =====
-- The theorems on the parts together, at one lobby and two clients.
use pirate_servers.Base.{
  ℕ, String, ◌≡◌, refl, Bool, true, false, none, some, List, [], ◌∷◌, map, ne_of_test,
}
use pirate_servers.Base.Map.{Map, lookup, contains}
use pirate_servers.Base.Outcome.{ok}
use pirate_servers.Base.Text.{has_prefix}
use pirate_servers.Wire.{Message}
use pirate_servers.Defines.{CabinInfo, ClientInfo}
use pirate_servers.Deck.{Deck, to_cabins, to_server, cabin_named, new_deck}
use pirate_servers.Deck.Services.{handle_services_cabins_input}
use pirate_servers.Deck.Workers.{dispatch_server}
use pirate_servers.Cabin.{Cabin, auth_msg, new_cabin}
use pirate_servers.Lobby.{Lobby, send_text, handle_shipdeck_input}
use pirate_servers.Client.{Client, new_client, sent, printed}
use pirate_servers.Client.Tasks.{input_message, core_step}
use pirate_servers.Server.{to_shipdeck, to_clients, ship_listener_step, client_listener_task}
use pirate_servers.System.Registration.{registration, registration_takes_any_reply}
use pirate_servers.System.Journey.{text_journey}

abbrev cabins_in_order : Map CabinInfo → Map CabinInfo
cabins_in_order m = m

abbrev users_in_order : List String → List String
users_in_order users = users

abbrev emptied : Message → Message
emptied = map (λ frame. "")

abbrev always : ℕ → Bool
always i = true

abbrev client : String → String → ClientInfo
client id name = record {
  c_id = id;
  c_server_id = "S";
  curr_cabin = "P";
  c_username = name;
  c_password = "pw";
  c_online = true;
}

abbrev deck : Deck
deck = record {
  alive = true;
  default_cabin = "Port";
  cabin_name_to_id = ("Port", "P") ∷ [];
  cabin_id_to_info =
      ("P", record { g_id = "P"; title = "Port"; description = "a port"; curr_playing = 2 }) ∷ [];
  crew_name_to_id = ("ann", "A") ∷ ("bob", "B") ∷ [];
  client_map = ("A", client "A" "ann") ∷ ("B", client "B" "bob") ∷ [];
}

abbrev lobby : Lobby
lobby = record { users = "bob" ∷ "ann" ∷ [] }

abbrev ann : Client
ann = new_client "ann" "pw" "tcp://localhost:5555"

abbrev bob : Client
bob = new_client "bob" "pw" "tcp://localhost:5555"

registration_example :
    (c : Cabin) × (info : Message) × (d' : Deck) × (new_cabin "Port" "a port"
        ("SHIP" ∷ "SUCCESS" ∷ "P" ∷ [])
      ≡ ok (c, auth_msg ∷ info ∷ []))
    × (c.alive ≡ true)
    × (c.info ≡ record { g_id = "P"; title = "Port"; description = "a port"; curr_playing = 0 })
    × (handle_services_cabins_input ("P" ∷ auth_msg) (some ("P" ∷ info)) new_deck
        ≡ ok (d', to_cabins ("P" ∷ "SHIP" ∷ "SUCCESS" ∷ "P" ∷ []) ∷ []))
    × (lookup "P" d'.cabin_id_to_info
        ≡ some (record { g_id = "P"; title = "Port"; description = "a port"; curr_playing = 0 }))
    × (cabin_named "Port" d' ≡ "P")
unfolding lookup
registration_example = registration "P" "Port" "a port" new_deck refl

registration_takes_any_reply_example :
    (d' : Deck) × (handle_services_cabins_input
        ("Q" ∷ auth_msg)
        (some ("P" ∷ "SEND" ∷ "TEXT" ∷ "bob" ∷ []))
        deck
      ≡ ok (d', to_cabins ("Q" ∷ "SHIP" ∷ "SUCCESS" ∷ "Q" ∷ []) ∷ []))
    × (lookup "P" d'.cabin_id_to_info
        ≡ some (record { g_id = "P"; title = "SEND"; description = "TEXT"; curr_playing = 0 }))
    × (contains "Q" d'.cabin_id_to_info ≡ false)
    × (cabin_named "SEND" d' ≡ "P")
unfolding lookup
registration_takes_any_reply_example =
    registration_takes_any_reply "Q" "P" "TEXT" ("bob" ∷ []) deck refl refl

text_journey_example :
    (d1 d2 : Deck) × (input_message "ahoy" ≡ some ("CLIENT" ∷ "TEXT" ∷ "ahoy" ∷ []))
    × (core_step always ("CLIENT" ∷ "TEXT" ∷ "ahoy" ∷ []) ann
        ≡ ok (ann, sent ("CREW" ∷ "TEXT" ∷ "ahoy" ∷ []) ∷ []))
    × (client_listener_task ((true, some ("A" ∷ "CREW" ∷ "TEXT" ∷ "ahoy" ∷ [])) ∷ [])
        ≡ to_shipdeck ("A" ∷ "CREW" ∷ "TEXT" ∷ "ahoy" ∷ []) ∷ [])
    × (dispatch_server cabins_in_order ("S" ∷ "A" ∷ "CREW" ∷ "TEXT" ∷ "ahoy" ∷ []) deck
        ≡ ok (d1, to_cabins ("P" ∷ "TEXT" ∷ "ann" ∷ "ahoy" ∷ []) ∷ []))
    × (handle_shipdeck_input users_in_order ("TEXT" ∷ "ann" ∷ "ahoy" ∷ []) lobby
        ≡ ok (lobby, map (send_text "ann" "ahoy") lobby.users))
    × (handle_services_cabins_input ("P" ∷ send_text "ann" "ahoy" "bob") none d1
        ≡ ok (d2, to_server ("S" ∷ "B" ∷ "CABIN" ∷ "TEXT" ∷ "ann" ∷ "ahoy" ∷ []) ∷ []))
    × (ship_listener_step emptied (record {
      alive = true;
      ship = none;
      shipdeck = some ("B" ∷ "CABIN" ∷ "TEXT" ∷ "ann" ∷ "ahoy" ∷ []);
      control = false;
    })
        ≡ ok (to_clients ("B" ∷ "CABIN" ∷ "TEXT" ∷ "ann" ∷ "ahoy" ∷ []) ∷ []))
    × (core_step always ("CABIN" ∷ "TEXT" ∷ "ann" ∷ "ahoy" ∷ []) bob
        ≡ ok (bob, printed "ann: ahoy\n" ∷ printed "> " ∷ []))
unfolding lookup has_prefix
text_journey_example =
    text_journey cabins_in_order users_in_order emptied always "S" "A" "ahoy" "bob" ann bob deck
      lobby (ne_of_test "ahoy" "" refl) refl refl refl refl
