-- ===== src/Server/Threads.antt =====
-- The threads of a running server beside each other: the loops of `user_input_task`,
-- `ship_listener_task` and `client_listener_task` of src/server/Server.cpp and the destructor, as steps
-- that come in any order. A round of a listener is one step.
pub mod Running
pub mod Measure
pub mod Ending
pub mod Waiting
pub mod Traffic
pub mod Order
pub mod Apart
pub mod Tests
use pirate_servers.Base.{
  String, Bool, true, false, ◌≡◌, ◌⊎◌, Option, none, some, List, [], ◌∷◌, ◌++◌,
}
use pirate_servers.Base.Outcome.{ok}
use pirate_servers.Base.Place.{Place, at_test, in_call, ended}
use pirate_servers.Wire.{Message}
use pirate_servers.Server.{
  Server, Passed, Round, user_input_step, ship_listener_step, client_listener_task,
}

-- Where the thread stands that has made the server: elsewhere in the program, at one of the
-- destructor's joins, or behind them.
pub data Main : Type 0 where
  elsewhere joining_user joining_ship joining_client destroyed : Main

-- `ship_told` and `client_told` tell whether the kill message of `control_pub` waits for a listener: it
-- does if the listener's `control_sub` is known to be subscribed when the destructor sends it. The
-- last four fields record what happened, in its order: the lines of the user, the rounds of each
-- listener, and all that was passed on.
pub record Process : Type 0 where
  pub main : Main
  pub user_input_thread : Place
  pub ship_listener_thread : Place
  pub client_listener_thread : Place
  pub server : Server
  pub ship_told : Bool
  pub client_told : Bool
  pub typed : List String
  pub rounds : List Round
  pub crew_rounds : List (Bool × Option Message)
  pub passed : List Passed

-- What a poll of the ship listener returns with.
abbrev pub polled : Option Message → Option Message → Bool → Round
polled ship shipdeck control = record {
  alive = true;
  ship = ship;
  shipdeck = shipdeck;
  control = control;
}

-- The destructor up to its joins. The kill message waits for a listener just if the listener's
-- `control_sub` is subscribed, as far as `control_pub` knows.
abbrev pub destroying : Bool → Bool → Process → Process
destroying ship_subscribed client_subscribed p = record p {
  main = joining_user;
  server = record p.server { alive = false };
  ship_told = ship_subscribed;
  client_told = client_subscribed;
}

module _ (left : Message → Message) where
  -- One step of some thread. A round that faults ends the process, so that no step follows.
  pub data Step (p : Process) : Process → Type 0 where
    user_waits :
        p.user_input_thread ≡ at_test
        → p.server.alive ≡ true
        → Step p (record p { user_input_thread = in_call })
    user_ends :
        p.user_input_thread ≡ at_test
        → p.server.alive ≡ false
        → Step p (record p { user_input_thread = ended })
    types_line :
        (input_str : String) (s : Server)
        → p.user_input_thread ≡ in_call
        → user_input_step input_str p.server ≡ ok s
        → Step p (record p {
          user_input_thread = at_test;
          server = s;
          typed = p.typed ++ input_str ∷ [];
        })
    ship_waits :
        p.ship_listener_thread ≡ at_test
        → p.server.alive ≡ true
        → Step p (record p { ship_listener_thread = in_call })
    ship_ends :
        p.ship_listener_thread ≡ at_test
        → p.server.alive ≡ false
        → Step p (record p { ship_listener_thread = ended })
    ship_round :
        (ship shipdeck : Option Message) (out : List Passed)
        → p.ship_listener_thread ≡ in_call
        → ((m : Message) × ((ship ≡ some m) ⊎ (shipdeck ≡ some m)))
        → ship_listener_step left (polled ship shipdeck false) ≡ ok out
        → Step p (record p {
          ship_listener_thread = at_test;
          rounds = p.rounds ++ polled ship shipdeck false ∷ [];
          passed = p.passed ++ out;
        })
    ship_killed :
        (ship shipdeck : Option Message) (out : List Passed)
        → p.ship_listener_thread ≡ in_call
        → p.ship_told ≡ true
        → ship_listener_step left (polled ship shipdeck true) ≡ ok out
        → Step p (record p {
          ship_listener_thread = ended;
          ship_told = false;
          rounds = p.rounds ++ polled ship shipdeck true ∷ [];
          passed = p.passed ++ out;
        })
    client_waits :
        p.client_listener_thread ≡ at_test
        → p.server.alive ≡ true
        → Step p (record p { client_listener_thread = in_call })
    client_ends :
        p.client_listener_thread ≡ at_test
        → p.server.alive ≡ false
        → Step p (record p { client_listener_thread = ended })
    client_round :
        (reqs : Message)
        → p.client_listener_thread ≡ in_call
        → Step p (record p {
          client_listener_thread = at_test;
          crew_rounds = p.crew_rounds ++ (true, some reqs) ∷ [];
          passed = p.passed ++ client_listener_task ((true, some reqs) ∷ []);
        })
    client_killed :
        (ready : Option Message)
        → p.client_listener_thread ≡ in_call
        → p.client_told ≡ true
        → Step p (record p {
          client_listener_thread = at_test;
          client_told = false;
          crew_rounds = p.crew_rounds ++ (true, ready) ∷ [];
          passed = p.passed ++ client_listener_task ((true, ready) ∷ []);
        })
    destroys :
        (ship_subscribed client_subscribed : Bool)
        → p.main ≡ elsewhere
        → Step p (destroying ship_subscribed client_subscribed p)
    joins_user :
        p.main ≡ joining_user
        → p.user_input_thread ≡ ended
        → Step p (record p { main = joining_ship })
    joins_ship :
        p.main ≡ joining_ship
        → p.ship_listener_thread ≡ ended
        → Step p (record p { main = joining_client })
    joins_client :
        p.main ≡ joining_client
        → p.client_listener_thread ≡ ended
        → Step p (record p { main = destroyed })

  pub data Steps (p : Process) : Process → Type 0 where
    here : Steps p p
    next : {q r : Process} → Steps p q → Step q r → Steps p r

  pub Steps-append : {p q r : Process} → Steps p q → Steps q r → Steps p r
  Steps-append before here = before
  Steps-append before (next after s) = next (Steps-append before after) s

-- A server whose constructor has started the threads.
abbrev pub started : Server → Process
started s = record {
  main = elsewhere;
  user_input_thread = at_test;
  ship_listener_thread = at_test;
  client_listener_thread = at_test;
  server = s;
  ship_told = false;
  client_told = false;
  typed = [];
  rounds = [];
  crew_rounds = [];
  passed = [];
}
