-- ===== src/Deck.antt =====
-- The ship deck: include/server/Shipdeck.hpp and src/server/Shipdeck.cpp. Its state is what the
-- handlers read and write; a message that a handler sends is an item of a list, with its socket.
pub mod Move
pub mod Crew
pub mod Services
pub mod Keeps
pub mod Reach
pub mod Placed
pub mod Workers
pub mod Access
pub mod Delivery
pub mod Loops
pub mod Change
pub mod Bounds
pub mod Known
pub mod Faults
pub mod Namesakes
pub mod Threads
pub mod Life
pub mod Examples
pub mod Tests
pub mod LoopTests
pub mod Count
use pirate_servers.Base.{String, Bool, true, List, [], ◌∷◌}
use pirate_servers.Base.Map.{Map, index, touch}
use pirate_servers.Wire.{Message}
use pirate_servers.Defines.{ClientId, CabinId, ClientInfo, CabinInfo, no_client}

pub record Deck : Type 0 where
  pub alive : Bool
  pub default_cabin : String
  pub cabin_name_to_id : Map CabinId
  pub cabin_id_to_info : Map CabinInfo
  pub crew_name_to_id : Map ClientId
  pub client_map : Map ClientInfo

-- A new ship deck: the initial values of the members.
abbrev pub new_deck : Deck
new_deck = record {
  alive = true;
  default_cabin = "";
  cabin_name_to_id = [];
  cabin_id_to_info = [];
  crew_name_to_id = [];
  client_map = [];
}

-- A message on `server_router`, `cabins_router` or `control_pub`, in the order of sending.
pub data Sent : Type 0 where
  to_server : Message → Sent
  to_cabins : Message → Sent
  to_control : Message → Sent

-- `client_map[crew_id]` and `cabin_name_to_id[name]`: the value, and the deck with the entry that
-- the access leaves behind.
abbrev pub client_at : ClientId → Deck → ClientInfo
client_at crew_id d = index crew_id no_client d.client_map

abbrev pub touch_client : ClientId → Deck → Deck
touch_client crew_id d = record d { client_map = touch crew_id no_client d.client_map }

abbrev pub cabin_named : String → Deck → CabinId
cabin_named name d = index name "" d.cabin_name_to_id

abbrev pub touch_name : String → Deck → Deck
touch_name name d = record d { cabin_name_to_id = touch name "" d.cabin_name_to_id }
