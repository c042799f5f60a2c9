-- ===== src/Deck/Threads.antt =====
-- The threads of a running ship deck beside each other: the loops of `server_listener_worker`,
-- `services_listener_worker` and `user_input_worker` of src/server/Shipdeck.cpp and the destructor, as
-- steps that come in any order. A handler is one step. `control_sub` is subscribed to nothing in both
-- listeners, so that none of their polls finds a control message.
pub mod Placed
pub mod Closing
pub mod Tests
use pirate_servers.Base.{
  String, Bool, true, false, ◌≡◌, ◌⊎◌, Option, none, some, List, [], ◌∷◌, ◌++◌,
}
use pirate_servers.Base.Outcome.{ok}
use pirate_servers.Base.Place.{Place, at_test, in_call, ended}
use pirate_servers.Base.Map.{Map}
use pirate_servers.Wire.{Message}
use pirate_servers.Defines.{CabinInfo}
use pirate_servers.Deck.{Deck, Sent, to_control}
use pirate_servers.Deck.Workers.{
  ServicesRound, dispatch_server, services_listener_step, user_input_step,
}

-- Where the thread stands that has made the ship deck: elsewhere in the program, at one of the
-- destructor's joins, or behind them.
pub data Main : Type 0 where
  elsewhere joining_users joining_server joining_services destroyed : Main

-- The last four fields record what happened, in its order: the lines of the host, the messages that
-- the servers sent, the rounds of the services, and all that was sent.
pub record Process : Type 0 where
  pub main : Main
  pub users_input_thread : Place
  pub server_listener_thread : Place
  pub services_listener_thread : Place
  pub deck : Deck
  pub typed : List String
  pub served : List Message
  pub rounds : List ServicesRound
  pub sent : List Sent

-- What a poll of the services returns with: a message of a cabin or of another ship, or of both.
abbrev pub ready : Option Message → Option Message → Option Message → ServicesRound
ready cabins info_reply ships = record {
  alive = true;
  cabins = cabins;
  info_reply = info_reply;
  ships = ships;
  control = false;
}

module _ (visit : Map CabinInfo → Map CabinInfo) where
  -- One step of some thread. A handler that faults ends the process, so that no step follows.
  pub data Step (p : Process) : Process → Type 0 where
    users_wait :
        p.users_input_thread ≡ at_test
        → p.deck.alive ≡ true
        → Step p (record p { users_input_thread = in_call })
    users_end :
        p.users_input_thread ≡ at_test
        → p.deck.alive ≡ false
        → Step p (record p { users_input_thread = ended })
    types_line :
        (input_str : String)
        → p.users_input_thread ≡ in_call
        → Step p (record p {
          users_input_thread = at_test;
          deck = user_input_step input_str p.deck;
          typed = p.typed ++ input_str ∷ [];
        })
    server_waits :
        p.server_listener_thread ≡ at_test
        → p.deck.alive ≡ true
        → Step p (record p { server_listener_thread = in_call })
    server_ends :
        p.server_listener_thread ≡ at_test
        → p.deck.alive ≡ false
        → Step p (record p { server_listener_thread = ended })
    server_message :
        (reqs : Message) (d : Deck) (out : List Sent)
        → p.server_listener_thread ≡ in_call
        → dispatch_server visit reqs p.deck ≡ ok (d, out)
        → Step p (record p {
          server_listener_thread = at_test;
          deck = d;
          served = p.served ++ reqs ∷ [];
          sent = p.sent ++ out;
        })
    services_wait :
        p.services_listener_thread ≡ at_test
        → p.deck.alive ≡ true
        → Step p (record p { services_listener_thread = in_call })
    services_end :
        p.services_listener_thread ≡ at_test
        → p.deck.alive ≡ false
        → Step p (record p { services_listener_thread = ended })
    services_message :
        (cabins info_reply ships : Option Message) (d : Deck) (out : List Sent)
        → p.services_listener_thread ≡ in_call
        → ((m : Message) × ((cabins ≡ some m) ⊎ (ships ≡ some m)))
        → services_listener_step (ready cabins info_reply ships) p.deck ≡ ok (d, out)
        → Step p (record p {
          services_listener_thread = at_test;
          deck = d;
          rounds = p.rounds ++ ready cabins info_reply ships ∷ [];
          sent = p.sent ++ out;
        })
    destroys :
        p.main ≡ elsewhere
        → Step p (record p {
          main = joining_users;
          deck = record p.deck { alive = false };
          sent = p.sent ++ to_control ("" ∷ []) ∷ [];
        })
    joins_users :
        p.main ≡ joining_users
        → p.users_input_thread ≡ ended
        → Step p (record p { main = joining_server })
    joins_server :
        p.main ≡ joining_server
        → p.server_listener_thread ≡ ended
        → Step p (record p { main = joining_services })
    joins_services :
        p.main ≡ joining_services
        → p.services_listener_thread ≡ ended
        → Step p (record p { main = destroyed })

  pub data Steps (p : Process) : Process → Type 0 where
    here : Steps p p
    next : {q r : Process} → Steps p q → Step q r → Steps p r

  pub Steps-append : {p q r : Process} → Steps p q → Steps q r → Steps p r
  Steps-append before here = before
  Steps-append before (next after s) = next (Steps-append before after) s

-- A ship deck whose constructor has started the threads.
abbrev pub started : Deck → Process
started d = record {
  main = elsewhere;
  users_input_thread = at_test;
  server_listener_thread = at_test;
  services_listener_thread = at_test;
  deck = d;
  typed = [];
  served = [];
  rounds = [];
  sent = [];
}
