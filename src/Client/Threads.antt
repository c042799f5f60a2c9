-- ===== src/Client/Threads.antt =====
-- The threads of a running client beside each other: the loops of `input_task`, `connection_task` and
-- `core_task` of src/client/Client.cpp, the wait of client_main.cpp for the client's end, and the
-- destructor, as steps that come in any order.
pub mod Run
pub mod Order
pub mod Closing
pub mod Ending
pub mod Tests
use pirate_servers.Base.{ℕ, String, Bool, true, false, ◌≡◌, Option, none, some, List, [], ◌∷◌, ◌++◌}
use pirate_servers.Base.Outcome.{ok}
use pirate_servers.Wire.{Message}
use pirate_servers.Client.{Client, Effect}
use pirate_servers.Client.Tasks.{input_message, connection_step, core_step}

-- Where a thread stands: at the test of its loop, in the call that waits (`std::getline`, `zmq::poll`
-- or the receive on `core`), behind its loop, or before a send to the core, which `input_task` alone
-- does in a step of its own.
pub data Place (A : Type 0) : Type 0 where
  at_test in_call ended : Place A
  sending : A → Place A

-- Where the main thread stands: in its wait for the client's end, at one of the destructor's joins,
-- or behind them.
pub data Main : Type 0 where
  waiting joining_input joining_connection joining_core closed : Main

-- `input_queue` and `ship_queue` hold the messages that the core has not received, of each of the two
-- sockets that send to it; `killed` tells whether the destructor has sent its message on
-- `control_pub`. The last four fields record what happened, in its order: the lines that the user
-- typed, the messages that came from the ship, the messages that the core handled, each with the
-- results of its handler's sends, and what the client did outside.
pub record Process : Type 0 where
  pub main : Main
  pub user_input_thread : Place Message
  pub connection_thread : Place ⊥
  pub core_thread : Place ⊥
  pub client : Client
  pub input_queue : List Message
  pub ship_queue : List Message
  pub killed : Bool
  pub typed : List String
  pub passed : List Message
  pub handled : List ((ℕ → Bool) × Message)
  pub effects : List Effect

-- Where `input_task` goes with a line.
abbrev pub after_line : Option Message → Place Message
after_line none = at_test
after_line (some client_input) = sending client_input

-- One step of some thread. A handler of the core that faults ends the process, so that no step
-- follows.
pub data Step (p : Process) : Process → Type 0 where
  input_waits :
      p.user_input_thread ≡ at_test
      → p.client.alive ≡ true
      → Step p (record p { user_input_thread = in_call })
  input_ends :
      p.user_input_thread ≡ at_test
      → p.client.alive ≡ false
      → Step p (record p { user_input_thread = ended })
  types_line :
      (input_str : String)
      → p.user_input_thread ≡ in_call
      → Step p (record p {
        user_input_thread = after_line (input_message input_str);
        typed = p.typed ++ input_str ∷ [];
      })
  input_sends :
      (client_input : Message)
      → p.user_input_thread ≡ sending client_input
      → Step p (record p {
        user_input_thread = at_test;
        input_queue = p.input_queue ++ client_input ∷ [];
      })
  connection_waits :
      p.connection_thread ≡ at_test
      → p.client.alive ≡ true
      → Step p (record p { connection_thread = in_call })
  connection_ends :
      p.connection_thread ≡ at_test
      → p.client.alive ≡ false
      → Step p (record p { connection_thread = ended })
  ship_message :
      (reqs : Message)
      → p.connection_thread ≡ in_call
      → Step p (record p {
        connection_thread = at_test;
        ship_queue = p.ship_queue ++ connection_step (some reqs);
        passed = p.passed ++ reqs ∷ [];
      })
  control_message :
      p.connection_thread ≡ in_call
      → p.killed ≡ true
      → Step p (record p { connection_thread = at_test })
  core_waits :
      p.core_thread ≡ at_test → p.client.alive ≡ true → Step p (record p { core_thread = in_call })
  core_ends :
      p.core_thread ≡ at_test → p.client.alive ≡ false → Step p (record p { core_thread = ended })
  core_handles_input :
      (sends : ℕ → Bool) (reqs : Message) (rest : List Message) (c : Client) (out : List Effect)
      → p.core_thread ≡ in_call
      → p.input_queue ≡ reqs ∷ rest
      → core_step sends reqs p.client ≡ ok (c, out)
      → Step p (record p {
        core_thread = at_test;
        client = c;
        input_queue = rest;
        handled = p.handled ++ (sends, reqs) ∷ [];
        effects = p.effects ++ out;
      })
  core_handles_ship :
      (sends : ℕ → Bool) (reqs : Message) (rest : List Message) (c : Client) (out : List Effect)
      → p.core_thread ≡ in_call
      → p.ship_queue ≡ reqs ∷ rest
      → core_step sends reqs p.client ≡ ok (c, out)
      → Step p (record p {
        core_thread = at_test;
        client = c;
        ship_queue = rest;
        handled = p.handled ++ (sends, reqs) ∷ [];
        effects = p.effects ++ out;
      })
  sleeps : p.main ≡ waiting → p.client.alive ≡ true → Step p p
  destroys :
      p.main ≡ waiting
      → p.client.alive ≡ false
      → Step p (record p {
        main = joining_input;
        client = record p.client { alive = false };
        killed = true;
      })
  joins_input :
      p.main ≡ joining_input
      → p.user_input_thread ≡ ended
      → Step p (record p { main = joining_connection })
  joins_connection :
      p.main ≡ joining_connection
      → p.connection_thread ≡ ended
      → Step p (record p { main = joining_core })
  joins_core : p.main ≡ joining_core → p.core_thread ≡ ended → Step p (record p { main = closed })

-- A client whose constructor has started the threads.
abbrev pub started : Client → Process
started c = record {
  main = waiting;
  user_input_thread = at_test;
  connection_thread = at_test;
  core_thread = at_test;
  client = c;
  input_queue = [];
  ship_queue = [];
  killed = false;
  typed = [];
  passed = [];
  handled = [];
  effects = [];
}

pub data Steps (p : Process) : Process → Type 0 where
  here : Steps p p
  next : {q r : Process} → Steps p q → Step q r → Steps p r

pub Steps-append : {p q r : Process} → Steps p q → Steps q r → Steps p r
Steps-append before here = before
Steps-append before (next after s) = next (Steps-append before after) s
