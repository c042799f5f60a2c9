-- ===== src/Server.antt =====
-- The server: include/server/Server.hpp and src/server/Server.cpp. It passes messages between the
-- crew and the ship deck; a message that a thread sends is an item of a list.
pub mod Routes
pub mod Tests
pub mod Threads
pub mod Life
use pirate_servers.Base.{
  String, Bool, true, false, Option, none, some, List, [], ◌∷◌, ◌++◌, ◌==◌, if◌then◌else◌,
}
use pirate_servers.Base.Outcome.{Outcome, ok, ◌>>=◌}
use pirate_servers.Base.Text.{has_prefix}
use pirate_servers.Wire.{Message, frame}
use pirate_servers.Defines.{ServerInfo}

pub record Server : Type 0 where
  pub info : ServerInfo
  pub alive : Bool

-- A message on `shipdeck_dealer` or on `client_router`.
pub data Passed : Type 0 where
  to_shipdeck : Message → Passed
  to_clients : Message → Passed

unfoldable pub handle_user_input_command : Message → Server → Outcome Server
handle_user_input_command input s = do
  command ← frame input 1
  ok (if command == "/quit" then record s { alive = false } else s)

unfoldable pub handle_user_input : Message → Server → Outcome Server
unfolding handle_user_input_command
handle_user_input input s = do
  kind ← frame input 0
  if kind == "COMMAND" then handle_user_input_command input s else ok s

-- One line of the user.
unfoldable pub user_input_step : String → Server → Outcome Server
unfolding handle_user_input
user_input_step input_str s =
    if has_prefix "/" input_str then handle_user_input ("COMMAND" ∷ input_str ∷ []) s else ok s

-- The loop over the user's lines: it ends when the server is not alive.
unfoldable pub user_input_task : List String → Server → Outcome Server
user_input_task [] s = ok s
user_input_task (input_str ∷ rest) s = elim s.alive [
  | false ↦ ok s
  | true ↦ do s' ← user_input_step input_str s; user_input_task rest s'
]

-- What is ready at one round of a listener's poll, and whether the server was alive at its start.
pub record Round : Type 0 where
  pub alive : Bool
  pub ship : Option Message
  pub shipdeck : Option Message
  pub control : Bool

-- `left` is what `zmq::send_multipart` leaves of the frames that it has sent.
module _ (left : Message → Message) where
  -- The vector `reqs` is declared once for both sockets: what the first leaves, the second adds to.
  unfoldable pub from_ship : Option Message → Outcome (Message × List Passed)
  from_ship none = ok ([], [])
  from_ship (some reqs) = do
    kind ← frame reqs 0
    ok (if kind == "SHIP" then (left reqs, to_shipdeck reqs ∷ []) else (reqs, []))

  abbrev pub from_shipdeck : Message → Option Message → List Passed
  from_shipdeck reqs none = []
  from_shipdeck reqs (some m) = to_clients (reqs ++ m) ∷ []

  unfoldable pub ship_listener_step : Round → Outcome (List Passed)
  unfolding from_ship
  ship_listener_step r = do
    (reqs, out) ← from_ship r.ship
    ok (out ++ from_shipdeck reqs r.shipdeck)

  -- The loop: it ends when the server is not alive, and behind a round with the control message.
  unfoldable pub ship_listener_task : List Round → Outcome (List Passed)
  unfolding ship_listener_step
  ship_listener_task [] = ok []
  ship_listener_task (r ∷ rs) = elim r.alive [
    | false ↦ ok []
    | true ↦ do
      out ← ship_listener_step r
      let rest = (do more ← ship_listener_task rs; ok (out ++ more))
      if r.control then ok out else rest
  ]

-- The loop over the crew's messages: it ends when the server is not alive, and only then.
unfoldable pub client_listener_task : List (Bool × Option Message) → List Passed
client_listener_task [] = []
client_listener_task ((false, ready) ∷ rs) = []
client_listener_task ((true, none) ∷ rs) = client_listener_task rs
client_listener_task ((true, some reqs) ∷ rs) = to_shipdeck reqs ∷ client_listener_task rs
