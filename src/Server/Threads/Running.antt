-- ===== src/Server/Threads/Running.antt =====
-- What every step of the server's threads (src/server/Server.cpp) keeps once the destructor is called.
use pirate_servers.Base.{String, ◌≡◌, Bool, true, false, arith}
use pirate_servers.Base.Outcome.{ok}
use pirate_servers.Base.Place.{in_call}
use pirate_servers.Wire.{Message}
use pirate_servers.Server.{Server, user_input_step}
use pirate_servers.Server.Routes.{step_alive}
use pirate_servers.Server.Threads.{
  Main, Process, Step, user_waits, user_ends, types_line, ship_waits, ship_ends, ship_round,
  ship_killed, client_waits, client_ends, client_round, client_killed, destroys, joins_user,
  joins_ship, joins_client, elsewhere,
}

abbrev pub is_closing : Main → Bool
is_closing elsewhere = false
is_closing _ = true

-- A server that is dead stays so, whatever its user types.
pub user_input_step-dead :
    (input_str : String) (s s' : Server)
    → user_input_step input_str s ≡ ok s'
    → s.alive ≡ false
    → s'.alive ≡ false
user_input_step-dead input_str s s' e dead = ground (arith, step_alive input_str s)

-- The destructor is called, and a listener that polls has its kill message before it.
pub record IsClosing (p : Process) : Type 0 where
  pub closing : is_closing p.main ≡ true
  pub dead : p.server.alive ≡ false
  pub ship : p.ship_listener_thread ≡ in_call → p.ship_told ≡ true
  pub client : p.client_listener_thread ≡ in_call → p.client_told ≡ true

module _ {left : Message → Message} where
  pub Step-IsClosing : {p q : Process} → Step left p q → IsClosing p → IsClosing q
  Step-IsClosing (user_waits at living) h = ground arith
  Step-IsClosing (user_ends at dead) h = ground arith
  Step-IsClosing {p} (types_line input_str s at returns) h =
      ground (arith, user_input_step-dead input_str p.server s returns)
  Step-IsClosing (ship_waits at living) h = ground arith
  Step-IsClosing (ship_ends at dead) h = ground arith
  Step-IsClosing (ship_round ship shipdeck out at ready returns) h = ground arith
  Step-IsClosing (ship_killed ship shipdeck out at told returns) h = ground arith
  Step-IsClosing (client_waits at living) h = ground arith
  Step-IsClosing (client_ends at dead) h = ground arith
  Step-IsClosing (client_round reqs at) h = ground arith
  Step-IsClosing (client_killed ready at told) h = ground arith
  Step-IsClosing (destroys ship_subscribed client_subscribed at) h = ground arith
  Step-IsClosing (joins_user at joined) h = ground arith
  Step-IsClosing (joins_ship at joined) h = ground arith
  Step-IsClosing (joins_client at joined) h = ground arith
