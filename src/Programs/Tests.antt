-- ===== src/Programs/Tests.antt =====
-- The server's main program at concrete arguments.
use pirate_servers.Base.{String, Bool, ◌≡◌, ◌≢◌, refl, inl, true, false, Option, some, [], ◌∷◌}
use pirate_servers.Base.Integer.{
  stoi, pos, skip_spaces, read_signed, read_number, read_digits, negsuc,
}
use pirate_servers.Defines.Decimal.{to_string}
use pirate_servers.Defines.{server_info}
use pirate_servers.Deck.{new_deck}
use pirate_servers.Deck.Life as DeckLife
use pirate_servers.Server.Life as ServerLife
use pirate_servers.Programs.{
  server_main, start_server, running, terminated, Parts, LobbyStart, cabins_threads, unwinding,
}
use pirate_servers.Programs.Shutdown.{
  Process, started, leaving, joining_cabins, here, next, server_dies, stop_waiting,
  hangs_with_lobby,
}
use pirate_servers.Programs.Wiring.{IsJoined, IsServing, server_main_joins}

-- A wildcard port becomes a port of the socket; any other address is the endpoint.
abbrev bind_deck : DeckLife.Socket → String → Option String
bind_deck DeckLife.server_router address = some address
bind_deck DeckLife.cabins_router address = some "tcp://127.0.0.1:40001"
bind_deck DeckLife.ships_pair address = some "tcp://127.0.0.1:40002"
bind_deck DeckLife.control_pub address = some "tcp://127.0.0.1:40003"

abbrev bind_server : ServerLife.Socket → String → Option String
bind_server ServerLife.control_pub address = some "tcp://127.0.0.1:40004"
bind_server _ address = some address

abbrev always : String → Bool
always address = true

abbrev deck : DeckLife.Running
deck = record {
  deck = new_deck;
  server_router_endpoint = "tcp://localhost:6003";
  cabins_router_endpoint = "tcp://127.0.0.1:40001";
  ships_pair_endpoint = "tcp://127.0.0.1:40002";
  control_pub_endpoint = "tcp://127.0.0.1:40003";
  server_listener_thread = true;
  services_listener_thread = true;
  users_input_thread = true;
}

abbrev parts : Parts
parts = record {
  deck = deck;
  lobbies = cabins_threads deck;
  server = record {
    server = record { info = server_info "tcp://*:"; alive = true };
    ship_router_endpoint = "tcp://*:5001";
    client_router_endpoint = "tcp://*:5002";
    shipdeck_addr = "tcp://localhost:6003";
    control_pub_endpoint = "tcp://127.0.0.1:40004";
    user_input_thread = true;
    ship_listener_thread = true;
    client_listener_thread = true;
  };
}

reads : stoi " 5001x" ≡ some (pos 5001)
unfolding stoi skip_spaces read_signed read_number read_digits
reads = refl

reads_negative : stoi "-2147483648" ≡ some (negsuc 2147483647)
unfolding stoi skip_spaces read_signed read_number read_digits
reads_negative = refl

starts :
    server_main bind_deck bind_server always ("tcp://*:" ∷ "5001" ∷ "5002" ∷ []) ≡ running parts
unfolding server_main start_server DeckLife.ship_deck ServerLife.new_server stoi skip_spaces
    read_signed read_number read_digits to_string
starts = refl

-- The threads of the lobbies can be joined when the ports are read, so that the exception is not caught.
port_terminates :
    server_main bind_deck bind_server always ("tcp://*:" ∷ "port" ∷ "5002" ∷ []) ≡ terminated
unfolding server_main start_server unwinding DeckLife.ship_deck stoi skip_spaces read_signed
    read_number read_digits to_string
port_terminates = refl

server_main_joins_example :
    (bind_deck DeckLife.server_router "tcp://localhost:6003" ≡ some "tcp://localhost:6003")
    × ((first second : LobbyStart) × (parts.lobbies ≡ first ∷ second ∷ [])
        × IsJoined bind_deck bind_server always first
        × IsJoined bind_deck bind_server always second)
    × IsServing bind_deck bind_server always "tcp://*:" "5001" "5002" parts.server
server_main_joins_example =
    server_main_joins bind_deck bind_server always "tcp://*:" "5001" "5002" parts starts

-- The server has died, and `main` waits for the first lobby's thread.
abbrev stuck : Process
stuck = record (started true true) { main = joining_cabins; server_alive = false }

hangs_with_lobby_example : (stuck.main ≢ leaving) × (stuck.killed ≡ false)
hangs_with_lobby_example =
    hangs_with_lobby stuck (next (next here (server_dies refl)) (stop_waiting refl refl)) (inl refl)
