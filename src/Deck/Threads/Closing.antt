-- ===== src/Deck/Threads/Closing.antt =====
-- What the destructor of the ship deck (src/server/Shipdeck.cpp) waits for.
use pirate_servers.Base.{◌≤◌, ◌≡◌, ◌≢◌, ap, Bool, true, false, [], ◌∷◌, length, arith, ◌⊎◌}
use pirate_servers.Base.Map.{Map}
use pirate_servers.Wire.Spans.{length-append}
use pirate_servers.Defines.{CabinInfo}
use pirate_servers.Deck.{Deck}
use pirate_servers.Base.Place.{in_call, ended}
use pirate_servers.Deck.Threads.{
  Main, Process, Step, Steps, Steps-append, ready, started, users_wait, users_end, types_line,
  server_waits, server_ends, server_message, services_wait, services_end, services_message,
  destroys, joins_users, joins_server, joins_services, here, next, joining_services, destroyed,
}

-- Whether the destructor has joined the server's listener, and whether it has joined them all.
abbrev pub is_past_server : Main → Bool
is_past_server joining_services = true
is_past_server destroyed = true
is_past_server _ = false

abbrev pub is_past_services : Main → Bool
is_past_services destroyed = true
is_past_services _ = false

record IsJoined (p : Process) : Type 0 where
  server : is_past_server p.main ≡ true → p.server_listener_thread ≡ ended
  services : is_past_services p.main ≡ true → p.services_listener_thread ≡ ended

-- The messages that came stay, and a listener that waits for one waits until there is one more.
record IsWaiting (p q : Process) : Type 0 where
  no_fewer_served : length p.served ≤ length q.served
  no_fewer_rounds : length p.rounds ≤ length q.rounds
  server :
      p.server_listener_thread ≡ in_call
      → length q.served ≤ length p.served
      → q.server_listener_thread ≡ in_call
  services :
      p.services_listener_thread ≡ in_call
      → length q.rounds ≤ length p.rounds
      → q.services_listener_thread ≡ in_call

module _ {visit : Map CabinInfo → Map CabinInfo} where
  Step-IsJoined : {p q : Process} → Step visit p q → IsJoined p → IsJoined q
  Step-IsJoined (users_wait at living) h = ground arith
  Step-IsJoined (users_end at dead) h = ground arith
  Step-IsJoined (types_line input_str at) h = ground arith
  Step-IsJoined (server_waits at living) h = ground arith
  Step-IsJoined (server_ends at dead) h = ground arith
  Step-IsJoined (server_message reqs d out at returns) h = ground arith
  Step-IsJoined (services_wait at living) h = ground arith
  Step-IsJoined (services_end at dead) h = ground arith
  Step-IsJoined (services_message cabins info_reply ships d out at some_ready returns) h =
      ground arith
  Step-IsJoined (destroys at) h = ground arith
  Step-IsJoined (joins_users at joined) h = ground arith
  Step-IsJoined (joins_server at joined) h = ground arith
  Step-IsJoined (joins_services at joined) h = ground arith

  Steps-IsJoined : {d : Deck} {p : Process} → Steps visit (started d) p → IsJoined p
  Steps-IsJoined here = ground arith
  Steps-IsJoined (next before s) = Step-IsJoined s (Steps-IsJoined before)

  Step-IsWaiting : {p q r : Process} → Step visit q r → IsWaiting p q → IsWaiting p r
  Step-IsWaiting (users_wait at living) h = ground arith
  Step-IsWaiting (users_end at dead) h = ground arith
  Step-IsWaiting (types_line input_str at) h = ground arith
  Step-IsWaiting (server_waits at living) h = ground arith
  Step-IsWaiting (server_ends at dead) h = ground arith
  Step-IsWaiting {p} {q} (server_message reqs d out at returns) h =
      ground (arith, length-append q.served (reqs ∷ []))
  Step-IsWaiting (services_wait at living) h = ground arith
  Step-IsWaiting (services_end at dead) h = ground arith
  Step-IsWaiting {p} {q} (services_message cabins info_reply ships d out at some_ready returns) h =
      ground (arith, length-append q.rounds (ready cabins info_reply ships ∷ []))
  Step-IsWaiting (destroys at) h = ground arith
  Step-IsWaiting (joins_users at joined) h = ground arith
  Step-IsWaiting (joins_server at joined) h = ground arith
  Step-IsWaiting (joins_services at joined) h = ground arith

  Steps-IsWaiting : {p q : Process} → Steps visit p q → IsWaiting p q
  Steps-IsWaiting here = ground arith
  Steps-IsWaiting (next before s) = Step-IsWaiting s (Steps-IsWaiting before)

-- While a listener is in its poll and neither listener gets a message any more, the destructor of the
-- ship deck, if it is called, does not come to its end, whatever the threads do in whatever order.
pub destructor_waits :
    (visit : Map CabinInfo → Map CabinInfo) (d : Deck) (p q : Process)
    → Steps visit (started d) p
    → (p.server_listener_thread ≡ in_call) ⊎ (p.services_listener_thread ≡ in_call)
    → Steps visit p q
    → q.served ≡ p.served
    → q.rounds ≡ p.rounds
    → q.main ≢ destroyed
destructor_waits visit d p q before polls after served rounds =
    let w = Steps-IsWaiting after in
    let j = Steps-IsJoined (Steps-append visit before after) in
    ground (arith, ap length served, ap length rounds)
