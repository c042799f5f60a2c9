-- ===== src/Deck/Workers.antt =====
-- The threads of src/server/Shipdeck.cpp: `server_listener_worker`, `services_listener_worker` and
-- `user_input_worker`. The rounds of a poll are a list: what was ready at each.
use pirate_servers.Base.{
  String, Bool, true, false, Option, none, some, List, [], ◌∷◌, ◌++◌, ◌==◌, if◌then◌else◌,
}
use pirate_servers.Base.Outcome.{Outcome, ok, ◌>>=◌}
use pirate_servers.Base.Text.{has_prefix}
use pirate_servers.Wire.{Message, frame}
use pirate_servers.Defines.{CabinInfo}
use pirate_servers.Base.Map.{Map}
use pirate_servers.Deck.{Deck, Sent}
use pirate_servers.Deck.Crew.{handle_crewmate_input}
use pirate_servers.Deck.Services.{handle_services_cabins_input, handle_services_ships_input}

-- The handlers with empty bodies. The result of the first two is not read.
abbrev pub handle_top_ship_input : Message → Deck → Outcome (Deck × List Sent)
handle_top_ship_input input d = ok (d, [])

abbrev pub handle_sub_ship_input : Message → Deck → Outcome (Deck × List Sent)
handle_sub_ship_input input d = ok (d, [])

abbrev pub handle_host_user_input : List String → Deck → Deck
handle_host_user_input input d = d

-- What is ready at a round of the poll: `alive` as it is at the start of the round, the messages,
-- and the control message. `info_reply` is what `cabins_router` delivers to a registration.
pub record ServerRound : Type 0 where
  pub alive : Bool
  pub server : Option Message
  pub control : Bool

pub record ServicesRound : Type 0 where
  pub alive : Bool
  pub cabins : Option Message
  pub info_reply : Option Message
  pub ships : Option Message
  pub control : Bool

module _ (visit : Map CabinInfo → Map CabinInfo) where
  unfoldable pub dispatch_server : Message → Deck → Outcome (Deck × List Sent)
  dispatch_server reqs d = do
    sender_type ← frame reqs 2
    if sender_type == "SHIP"
        then handle_top_ship_input reqs d
        else if sender_type == "SUB"
        then handle_sub_ship_input reqs d
        else if sender_type == "CREW"
        then handle_crewmate_input visit reqs d
        else ok (d, [])

  unfoldable pub server_listener_step : Option Message → Deck → Outcome (Deck × List Sent)
  unfolding dispatch_server
  server_listener_step none d = ok (d, [])
  server_listener_step (some reqs) d = dispatch_server reqs d

  unfoldable pub server_listener_worker : List ServerRound → Deck → Outcome (Deck × List Sent)
  server_listener_worker [] d = ok (d, [])
  server_listener_worker (r ∷ rs) d = elim r.alive [
    | false ↦ ok (d, [])
    | true ↦ do
      (d', out) ← server_listener_step r.server d
      let rest = (do (d'', more) ← server_listener_worker rs d'; ok (d'', out ++ more))
      if r.control then ok (d', out) else rest
  ]

-- The vector `reqs` is declared once for both sockets: the second message is added to the first.
unfoldable pub services_cabins_step :
    Option Message → Option Message → Deck → Outcome (Message × Deck × List Sent)
services_cabins_step none info_reply d = ok ([], d, [])
services_cabins_step (some reqs) info_reply d = do
  (d', out) ← handle_services_cabins_input reqs info_reply d
  ok (reqs, d', out)

unfoldable pub services_ships_step : Message → Option Message → Deck → Outcome (Deck × List Sent)
services_ships_step reqs none d = ok (d, [])
services_ships_step reqs (some m) d = handle_services_ships_input (reqs ++ m) d

unfoldable pub services_listener_step : ServicesRound → Deck → Outcome (Deck × List Sent)
services_listener_step r d = do
  (reqs, d', out) ← services_cabins_step r.cabins r.info_reply d
  (d'', more) ← services_ships_step reqs r.ships d'
  ok (d'', out ++ more)

unfoldable pub services_listener_worker : List ServicesRound → Deck → Outcome (Deck × List Sent)
services_listener_worker [] d = ok (d, [])
services_listener_worker (r ∷ rs) d = elim r.alive [
  | false ↦ ok (d, [])
  | true ↦ do
    (d', out) ← services_listener_step r d
    let rest = (do (d'', more) ← services_listener_worker rs d'; ok (d'', out ++ more))
    if r.control then ok (d', out) else rest
]

-- One line of the host: a command, an alert, or nothing that is handled.
unfoldable pub host_input : String → Option (List String)
host_input input_str =
    if has_prefix "/" input_str
    then some ("COMMAND" ∷ input_str ∷ [])
    else if has_prefix "alert " input_str
    then some ("ALERT" ∷ input_str ∷ [])
    else none

unfoldable pub user_input_step : String → Deck → Deck
unfolding host_input
user_input_step input_str d = elim (host_input input_str) [
  | none ↦ d
  | some client_input ↦ handle_host_user_input client_input d
]
