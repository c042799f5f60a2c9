-- ===== src/Deck/Threads/Tests.antt =====
-- The theorems on the threads of src/server/Shipdeck.cpp where a cabin registers, a client logs in and
-- the ship deck is destroyed.
use pirate_servers.Base.{◌≡◌, ◌≢◌, refl, inl, none, some, [], ◌∷◌, false}
use pirate_servers.Base.Outcome.{ok}
use pirate_servers.Deck.{new_deck, to_cabins, to_server, to_control}
use pirate_servers.Deck.Workers.{
  dispatch_server, services_cabins_step, services_ships_step, services_listener_step,
}
use pirate_servers.Deck.Examples.{
  in_order, one_cabin, one_client, registering, port_info, ann_logs_in, registers, logs_in,
}
use pirate_servers.Deck.Placed.{IsPlaced}
use pirate_servers.Base.Place.{in_call, ended}
use pirate_servers.Deck.Threads.{
  Process, Steps, ready, started, here, next, server_waits, server_message, services_wait,
  services_message, destroys, users_end, joins_users, joining_server, destroyed,
}
use pirate_servers.Deck.Threads.Placed.{threads_keep-IsPlaced}
use pirate_servers.Deck.Threads.Closing.{destructor_waits}

-- A cabin has registered, a client has logged in, and both listeners wait for more.
abbrev pub both_wait : Process
both_wait = record (started one_client) {
  server_listener_thread = in_call;
  services_listener_thread = in_call;
  served = ann_logs_in ∷ [];
  rounds = ready (some registering) (some port_info) none ∷ [];
  sent =
      to_cabins ("P" ∷ "SHIP" ∷ "SUCCESS" ∷ "P" ∷ [])
      ∷ to_server ("S" ∷ "A" ∷ "SHIP" ∷ "ACK" ∷ [])
      ∷ to_cabins ("" ∷ "DISCONNECT" ∷ "ann" ∷ [])
      ∷ to_cabins ("P" ∷ "JOIN" ∷ "ann" ∷ [])
      ∷ [];
}

registers_round :
    services_listener_step (ready (some registering) (some port_info) none) new_deck
    ≡ ok (one_cabin, to_cabins ("P" ∷ "SHIP" ∷ "SUCCESS" ∷ "P" ∷ []) ∷ [])
unfolding services_listener_step services_cabins_step services_ships_step
registers_round = rw registers refl

pub comes_to_wait : Steps in_order (started new_deck) both_wait
unfolding dispatch_server
comes_to_wait =
    next
      (next
        (next
          (next (next (next here (server_waits refl refl)) (services_wait refl refl)) (
            services_message (some registering) (some port_info) none one_cabin
              (to_cabins ("P" ∷ "SHIP" ∷ "SUCCESS" ∷ "P" ∷ []) ∷ []) refl (registering, inl refl)
              registers_round))
          (server_message ann_logs_in one_client _ refl logs_in))
        (services_wait refl refl))
      (server_waits refl refl)

-- The destructor has been called and has joined the thread of the host's input.
abbrev stuck : Process
stuck = record both_wait {
  main = joining_server;
  users_input_thread = ended;
  deck = record one_client { alive = false };
  sent =
      to_cabins ("P" ∷ "SHIP" ∷ "SUCCESS" ∷ "P" ∷ [])
      ∷ to_server ("S" ∷ "A" ∷ "SHIP" ∷ "ACK" ∷ [])
      ∷ to_cabins ("" ∷ "DISCONNECT" ∷ "ann" ∷ [])
      ∷ to_cabins ("P" ∷ "JOIN" ∷ "ann" ∷ [])
      ∷ to_control ("" ∷ [])
      ∷ [];
}

gets_stuck : Steps in_order both_wait stuck
gets_stuck = next (next (next here (destroys refl)) (users_end refl refl)) (joins_users refl refl)

threads_keep-IsPlaced_example : IsPlaced "A" one_client
threads_keep-IsPlaced_example = threads_keep-IsPlaced in_order both_wait "A" comes_to_wait

destructor_waits_example : stuck.main ≢ destroyed
destructor_waits_example =
    destructor_waits in_order new_deck both_wait stuck comes_to_wait (inl refl) gets_stuck refl refl
