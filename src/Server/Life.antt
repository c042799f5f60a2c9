-- ===== src/Server/Life.antt =====
-- How a server starts and stops: the constructor and the destructor of src/server/Server.cpp.
use pirate_servers.Base.Integer.{ℤ}
use pirate_servers.Base.{String, Bool, true, false, Option, List, [], ◌∷◌}
use pirate_servers.Base.Outcome.{Outcome, ok, bound, connected, ◌>>=◌}
use pirate_servers.Wire.{Message}
use pirate_servers.Defines.{address, server_info}
use pirate_servers.Server.{Server}

pub data Socket : Type 0 where
  ship_router client_router control_pub : Socket

-- The sockets' endpoints, the address that `shipdeck_dealer` connects to, and which threads can be
-- joined.
pub record Running : Type 0 where
  pub server : Server
  pub ship_router_endpoint : String
  pub client_router_endpoint : String
  pub shipdeck_addr : String
  pub control_pub_endpoint : String
  pub user_input_thread : Bool
  pub ship_listener_thread : Bool
  pub client_listener_thread : Bool

abbrev pub is_alive : Running → Bool
is_alive r = r.server.alive

-- `bind` and `connects` are what the sockets library answers.
unfoldable pub new_server :
    (Socket → String → Option String) → (String → Bool) → String → String → ℤ → ℤ → Outcome Running
new_server bind connects shipdeck_addr server_name ship_port_num crew_port_num = do
  ship ← bound (bind ship_router (address server_name ship_port_num))
  client ← bound (bind client_router (address server_name crew_port_num))
  deck_addr ← connected connects shipdeck_addr
  control ← bound (bind control_pub "tcp://localhost:*")
  ok (record {
    server = record { info = server_info server_name; alive = true };
    ship_router_endpoint = ship;
    client_router_endpoint = client;
    shipdeck_addr = deck_addr;
    control_pub_endpoint = control;
    user_input_thread = true;
    ship_listener_thread = true;
    client_listener_thread = true;
  })

-- The destructor, with what it sends on `control_pub` before it joins the threads.
unfoldable pub close_server : Running → Running × List Message
close_server r = (
  record r {
    server = record r.server { alive = false };
    user_input_thread = false;
    ship_listener_thread = false;
    client_listener_thread = false;
  },
  ("" ∷ []) ∷ [],
)
