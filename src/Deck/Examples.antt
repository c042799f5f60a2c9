-- ===== src/Deck/Examples.antt =====
-- Decks and messages at which the theorems on src/server/Shipdeck.cpp are tried.
use pirate_servers.Base.{◌≡◌, refl, some, [], ◌∷◌, true}
use pirate_servers.Base.Map.{Map, lookup, insert}
use pirate_servers.Base.Outcome.{ok}
use pirate_servers.Wire.{Message}
use pirate_servers.Defines.{CabinInfo, ClientInfo}
use pirate_servers.Deck.{Deck, to_cabins, to_server, new_deck}
use pirate_servers.Deck.Move.{count_players, leave_cabin, enter_cabin, change_player_cabins}
use pirate_servers.Deck.Crew.{login, handle_crewmate_input}
use pirate_servers.Deck.Services.{add_registered, register, handle_services_cabins_input}

abbrev pub in_order : Map CabinInfo → Map CabinInfo
in_order m = m

abbrev pub port : CabinInfo
port = record { g_id = "P"; title = "Port"; description = "a port"; curr_playing = 0 }

-- One cabin and no clients.
abbrev pub one_cabin : Deck
one_cabin = record {
  alive = true;
  default_cabin = "Port";
  cabin_name_to_id = ("Port", "P") ∷ [];
  cabin_id_to_info = ("P", port) ∷ [];
  crew_name_to_id = [];
  client_map = [];
}

abbrev pub ann : ClientInfo
ann = record {
  c_id = "A";
  c_server_id = "S";
  curr_cabin = "P";
  c_username = "ann";
  c_password = "pw";
  c_online = true;
}

-- And with one client in it.
abbrev pub one_client : Deck
one_client = record one_cabin {
  cabin_id_to_info = ("P", record port { curr_playing = 1 }) ∷ [];
  crew_name_to_id = ("ann", "A") ∷ [];
  client_map = ("A", ann) ∷ [];
}

abbrev pub registering : Message
registering = "P" ∷ "REGISTRATION" ∷ "JOIN" ∷ []

abbrev pub port_info : Message
port_info = "P" ∷ "Port" ∷ "a port" ∷ "0" ∷ []

abbrev pub ann_logs_in : Message
ann_logs_in = "S" ∷ "A" ∷ "CREW" ∷ "LOGIN" ∷ "ann" ∷ "pw" ∷ []

pub registers :
    handle_services_cabins_input registering (some port_info) new_deck
    ≡ ok (one_cabin, to_cabins ("P" ∷ "SHIP" ∷ "SUCCESS" ∷ "P" ∷ []) ∷ [])
unfolding handle_services_cabins_input register add_registered lookup insert
registers = refl

pub logs_in :
    handle_crewmate_input in_order ann_logs_in one_cabin
    ≡ ok (
      one_client,
      to_server ("S" ∷ "A" ∷ "SHIP" ∷ "ACK" ∷ [])
          ∷ to_cabins ("" ∷ "DISCONNECT" ∷ "ann" ∷ [])
          ∷ to_cabins ("P" ∷ "JOIN" ∷ "ann" ∷ [])
          ∷ [],
    )
unfolding handle_crewmate_input login change_player_cabins leave_cabin enter_cabin count_players
    lookup insert
logs_in = refl
