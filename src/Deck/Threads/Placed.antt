-- ===== src/Deck/Threads/Placed.antt =====
-- What the threads of the ship deck (src/server/Shipdeck.cpp) keep of it, in whatever order they run.
use pirate_servers.Base.{String, ◌≡◌, Bool, false, arith}
use pirate_servers.Base.Map.{Map}
use pirate_servers.Defines.{ClientId, CabinInfo}
use pirate_servers.Deck.{Deck, new_deck}
use pirate_servers.Deck.Placed.{
  IsPlaced, crew-IsPlaced, services-IsPlaced, ships-IsPlaced, start-IsPlaced,
}
use pirate_servers.Deck.Loops.{IsKept, dispatch_server-Keeps, services_step-Keeps}
use pirate_servers.Deck.Workers.{user_input_step}
use pirate_servers.Deck.Threads.{
  Process, Step, Steps, ready, started, users_wait, users_end, types_line, server_waits,
  server_ends, server_message, services_wait, services_end, services_message, destroys, joins_users,
  joins_server, joins_services, here, next,
}

-- No line of the host changes the deck.
pub user_input_step_lem : (input_str : String) (d : Deck) → user_input_step input_str d ≡ d
unfolding user_input_step
user_input_step_lem input_str d = ground arith

-- What every handler keeps, and what does not depend on whether the deck is alive, the threads keep.
module _ {ℓ} {visit : Map CabinInfo → Map CabinInfo} {P : Deck → Type ℓ} (k : IsKept visit P)
    (alive : (a : Bool) (d : Deck) → P d → P (record d { alive = a })) where
  Step-Keeps : {p q : Process} → Step visit p q → P p.deck → P q.deck
  Step-Keeps (users_wait at living) h = h
  Step-Keeps (users_end at dead) h = h
  Step-Keeps {p} (types_line input_str at) h = rw (user_input_step_lem input_str p.deck) h
  Step-Keeps (server_waits at living) h = h
  Step-Keeps (server_ends at dead) h = h
  Step-Keeps {p} (server_message reqs d out at returns) h =
      (dispatch_server-Keeps k reqs p.deck h).at d out returns
  Step-Keeps (services_wait at living) h = h
  Step-Keeps (services_end at dead) h = h
  Step-Keeps {p} (services_message cabins info_reply ships d out at some_ready returns) h =
      (services_step-Keeps k (ready cabins info_reply ships) p.deck h).at d out returns
  Step-Keeps {p} (destroys at) h = alive false p.deck h
  Step-Keeps (joins_users at joined) h = h
  Step-Keeps (joins_server at joined) h = h
  Step-Keeps (joins_services at joined) h = h

  pub Steps-Keeps : {d : Deck} {p : Process} → Steps visit (started d) p → P d → P p.deck
  Steps-Keeps here h = h
  Steps-Keeps (next before s) h = Step-Keeps s (Steps-Keeps before h)

IsPlaced-IsKept : (visit : Map CabinInfo → Map CabinInfo) (k : ClientId) → IsKept visit (IsPlaced k)
IsPlaced-IsKept visit k = record {
  crew = λ input d h. crew-IsPlaced k visit input d h;
  cabins = λ input next d h. services-IsPlaced k input next d h;
  ships = λ input d h. ships-IsPlaced k input d h;
}

-- From the start of the ship deck, whatever its threads do in whatever order, and also while it is
-- destroyed, each client is in no cabin or in a cabin that is registered.
pub threads_keep-IsPlaced :
    (visit : Map CabinInfo → Map CabinInfo) (p : Process) (k : ClientId)
    → Steps visit (started new_deck) p
    → IsPlaced k p.deck
threads_keep-IsPlaced visit p k steps =
    Steps-Keeps (IsPlaced-IsKept visit k) (λ a d h. h) steps (start-IsPlaced k)
