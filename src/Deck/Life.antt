-- ===== src/Deck/Life.antt =====
-- How a ship deck starts and stops: the constructor, the destructor and the endpoints of
-- src/server/Shipdeck.cpp.
use pirate_servers.Base.Integer.{ℤ}
use pirate_servers.Base.{
  String, ◌≡◌, inl, inr, Bool, true, false, Option, List, [], ◌∷◌, ◌++◌, arith,
}
use pirate_servers.Base.Outcome.{Outcome, Outcome-cases, ok, bound, ◌>>=◌}
use pirate_servers.Base.Map.{Map}
use pirate_servers.Defines.{CabinInfo, address}
use pirate_servers.Deck.{Deck, new_deck, Sent, to_control}
use pirate_servers.Deck.Workers.{
  ServerRound, ServicesRound, server_listener_step, server_listener_worker, services_listener_step,
  services_listener_worker,
}

pub data Socket : Type 0 where
  server_router cabins_router ships_pair control_pub : Socket

-- The sockets' endpoints, and which threads can be joined.
pub record Running : Type 0 where
  pub deck : Deck
  pub server_router_endpoint : String
  pub cabins_router_endpoint : String
  pub ships_pair_endpoint : String
  pub control_pub_endpoint : String
  pub server_listener_thread : Bool
  pub services_listener_thread : Bool
  pub users_input_thread : Bool

abbrev pub get_cabins_router_endpoint : Running → String
get_cabins_router_endpoint r = r.cabins_router_endpoint

abbrev pub get_ships_pair_endpoint : Running → String
get_ships_pair_endpoint r = r.ships_pair_endpoint

abbrev pub get_control_pub_endpoint : Running → String
get_control_pub_endpoint r = r.control_pub_endpoint

-- The constructor: the sockets are bound in this order, and then the threads begin. `bind` is what
-- the sockets library answers.
unfoldable pub ship_deck : (Socket → String → Option String) → String → ℤ → Outcome Running
ship_deck bind ship_server_name port = do
  server ← bound (bind server_router (address ship_server_name port))
  cabins ← bound (bind cabins_router "tcp://localhost:*")
  ships ← bound (bind ships_pair "tcp://localhost:*")
  control ← bound (bind control_pub "tcp://localhost:*")
  ok (record {
    deck = new_deck;
    server_router_endpoint = server;
    cabins_router_endpoint = cabins;
    ships_pair_endpoint = ships;
    control_pub_endpoint = control;
    server_listener_thread = true;
    services_listener_thread = true;
    users_input_thread = true;
  })

-- The destructor: the threads are told to end and joined.
unfoldable pub close_ship_deck : Running → Running × List Sent
close_ship_deck r =
    let stopped = record r.deck { alive = false } in
    (
      record r {
        deck = stopped;
        server_listener_thread = false;
        services_listener_thread = false;
        users_input_thread = false;
      },
      to_control ("" ∷ []) ∷ [],
    )

module _ (visit : Map CabinInfo → Map CabinInfo) where
  server_listener_ends :
      (before later : List ServerRound) (last : ServerRound) (d : Deck)
      → last.control ≡ true
      → server_listener_worker visit (before ++ (last ∷ later)) d
        ≡ server_listener_worker visit (before ++ (last ∷ [])) d
  unfolding server_listener_worker
  server_listener_ends [] later last d h = ground arith
  server_listener_ends (r ∷ before) later last d h =
      elim (Outcome-cases (server_listener_step visit r.server d)) [
        | inl (p, e) ↦ ground (arith, server_listener_ends before later last p.0 h)
        | inr (fault, e) ↦ ground arith
      ]

services_listener_ends :
    (before later : List ServicesRound) (last : ServicesRound) (d : Deck)
    → last.control ≡ true
    → services_listener_worker (before ++ (last ∷ later)) d
      ≡ services_listener_worker (before ++ (last ∷ [])) d
unfolding services_listener_worker
services_listener_ends [] later last d h = ground arith
services_listener_ends (r ∷ before) later last d h =
    elim (Outcome-cases (services_listener_step r d)) [
      | inl (p, e) ↦ ground (arith, services_listener_ends before later last p.0 h)
      | inr (fault, e) ↦ ground arith
    ]

-- A round in which the control socket is ready is the last one that a listener of the ship deck
-- handles: the rounds that would come later make no difference to the deck, to what is sent or to
-- a fault.
pub control_ends_listeners :
    (visit : Map CabinInfo → Map CabinInfo) (d : Deck) (before later : List ServerRound)
    (last : ServerRound) (before' later' : List ServicesRound) (last' : ServicesRound)
    → last.control ≡ true
    → last'.control ≡ true
    → (server_listener_worker visit (before ++ (last ∷ later)) d
        ≡ server_listener_worker visit (before ++ (last ∷ [])) d)
      × (services_listener_worker (before' ++ (last' ∷ later')) d
          ≡ services_listener_worker (before' ++ (last' ∷ [])) d)
control_ends_listeners visit d before later last before' later' last' h h' = (
  server_listener_ends visit before later last d h,
  services_listener_ends before' later' last' d h',
)
