-- ===== src/Bridge.antt =====
-- The cabin that joins servers: include/server/ServerBridgeCabin.hpp and
-- src/server/ServerBridgeCabin.cpp, which src/server/CMakeLists.txt does not build. No code
-- writes to `next_hops`, which is empty from the constructor on.
use pirate_servers.Base.{String, List, [], ◌∷◌, ◌++◌, length, ◌==◌, if◌then◌else◌}
use pirate_servers.Base.Outcome.{Outcome, ok, ◌>>=◌}
use pirate_servers.Base.Map.{Map, index, contains}
use pirate_servers.Base.Word.{sub64}
use pirate_servers.Wire.{Message, frame, subspan}
use pirate_servers.Defines.{ServerId}
use pirate_servers.Cabin.{Cabin, new_cabin}
use pirate_servers.Cabin.Poll.{Round, poll_with_control}

pub record Bridge : Type 0 where
  pub next_hops : Map ServerId
  pub server_name : String

abbrev new_bridge : String → Bridge
new_bridge server_title = record { next_hops = []; server_name = server_title }

abbrev pub handle_bridge_input : Message → Bridge → Outcome (Bridge × List Message)
handle_bridge_input input b = ok (b, [])

-- `handle_shipdeck_input_connect` and `handle_shipdeck_input_send` are declared and defined nowhere:
-- they are arguments, and a message on `bridge_router` is an item of a list.
module _ (connect send : Message → Bridge → Outcome (Bridge × List Message)) where
  unfoldable pub before_routing : Message → Bridge → Outcome (Bridge × List Message)
  before_routing input b = do
    command ← frame input 0
    if command == "CONNECT"
        then connect input b
        else if command == "SEND"
        then send input b
        else ok (b, [])

  unfoldable pub handle_shipdeck_input : Message → Bridge → Outcome (Bridge × List Message)
  unfolding before_routing
  handle_shipdeck_input input b = do
    (b', out) ← before_routing input b
    dest_server_title ← frame input 1
    if contains dest_server_title b'.next_hops
        then (do
          let next_hop_id = index dest_server_title "" b'.next_hops
          sender_type ← frame input 2
          m_type ← frame input 3
          frames ← subspan input 4 (sub64 (length input) 4)
          ok (
            b',
            out
                ++ (((next_hop_id ∷ dest_server_title ∷ b'.server_name ∷ sender_type ∷ m_type ∷ [])
                      ++ frames)
                    ∷ []),
          ))
        else ok (b', out)

  -- The constructor: the cabin registers and then handles the messages of its two sockets.
  unfoldable pub server_bridge_cabin :
      String → String → String → Message → List Round → Outcome (Cabin × Bridge × List Message)
  server_bridge_cabin title description server_title reply rounds = do
    (c, first) ← new_cabin title description reply
    let handles = handle_shipdeck_input ∷ handle_bridge_input ∷ []
    (b, out) ← poll_with_control c.alive handles rounds (new_bridge server_title)
    ok (c, b, first ++ out)
