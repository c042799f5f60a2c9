-- ===== src/Server/Threads/Waiting.antt =====
-- What the destructor of the server (src/server/Server.cpp) waits for.
use pirate_servers.Base.{◌≤◌, ◌≡◌, ◌≢◌, ap, Bool, true, false, [], ◌∷◌, length, arith}
use pirate_servers.Base.Place.{in_call, ended}
use pirate_servers.Wire.{Message}
use pirate_servers.Wire.Spans.{length-append}
use pirate_servers.Server.{Server}
use pirate_servers.Server.Threads.{
  Main, Process, Step, Steps, Steps-append, started, user_waits, user_ends, types_line, ship_waits,
  ship_ends, ship_round, ship_killed, client_waits, client_ends, client_round, client_killed,
  destroys, joins_user, joins_ship, joins_client, here, next, elsewhere, joining_user, destroyed,
}

-- Whether the destructor has joined the thread that reads the user's lines.
abbrev is_past_user : Main → Bool
is_past_user elsewhere = false
is_past_user joining_user = false
is_past_user _ = true

record IsJoined (p : Process) : Type 0 where
  user : is_past_user p.main ≡ true → p.user_input_thread ≡ ended

-- The lines that came stay, and a call that waits for one waits until there is one more.
record IsReading (p q : Process) : Type 0 where
  no_fewer : length p.typed ≤ length q.typed
  user :
      p.user_input_thread ≡ in_call
      → length q.typed ≤ length p.typed
      → q.user_input_thread ≡ in_call

module _ {left : Message → Message} where
  Step-IsJoined : {p q : Process} → Step left p q → IsJoined p → IsJoined q
  Step-IsJoined (user_waits at living) h = ground arith
  Step-IsJoined (user_ends at dead) h = ground arith
  Step-IsJoined (types_line input_str s at returns) h = ground arith
  Step-IsJoined (ship_waits at living) h = ground arith
  Step-IsJoined (ship_ends at dead) h = ground arith
  Step-IsJoined (ship_round ship shipdeck out at ready returns) h = ground arith
  Step-IsJoined (ship_killed ship shipdeck out at told returns) h = ground arith
  Step-IsJoined (client_waits at living) h = ground arith
  Step-IsJoined (client_ends at dead) h = ground arith
  Step-IsJoined (client_round reqs at) h = ground arith
  Step-IsJoined (client_killed ready at told) h = ground arith
  Step-IsJoined (destroys ship_subscribed client_subscribed at) h = ground arith
  Step-IsJoined (joins_user at joined) h = ground arith
  Step-IsJoined (joins_ship at joined) h = ground arith
  Step-IsJoined (joins_client at joined) h = ground arith

  Step-IsReading : {p q r : Process} → Step left q r → IsReading p q → IsReading p r
  Step-IsReading (user_waits at living) h = ground arith
  Step-IsReading (user_ends at dead) h = ground arith
  Step-IsReading {p} {q} (types_line input_str s at returns) h =
      ground (arith, length-append q.typed (input_str ∷ []))
  Step-IsReading (ship_waits at living) h = ground arith
  Step-IsReading (ship_ends at dead) h = ground arith
  Step-IsReading (ship_round ship shipdeck out at ready returns) h = ground arith
  Step-IsReading (ship_killed ship shipdeck out at told returns) h = ground arith
  Step-IsReading (client_waits at living) h = ground arith
  Step-IsReading (client_ends at dead) h = ground arith
  Step-IsReading (client_round reqs at) h = ground arith
  Step-IsReading (client_killed ready at told) h = ground arith
  Step-IsReading (destroys ship_subscribed client_subscribed at) h = ground arith
  Step-IsReading (joins_user at joined) h = ground arith
  Step-IsReading (joins_ship at joined) h = ground arith
  Step-IsReading (joins_client at joined) h = ground arith

  Steps-IsJoined : {s : Server} {p : Process} → Steps left (started s) p → IsJoined p
  Steps-IsJoined here = ground arith
  Steps-IsJoined (next before s) = Step-IsJoined s (Steps-IsJoined before)

  Steps-IsReading : {p q : Process} → Steps left p q → IsReading p q
  Steps-IsReading here = ground arith
  Steps-IsReading (next before s) = Step-IsReading s (Steps-IsReading before)

-- While the server's thread reads a line and the user types none, the destructor, if it is called, does
-- not come to its end, whatever the threads do in whatever order.
pub destructor_waits_for_line :
    (left : Message → Message) (s : Server) (p q : Process)
    → Steps left (started s) p
    → p.user_input_thread ≡ in_call
    → Steps left p q
    → q.typed ≡ p.typed
    → q.main ≢ destroyed
destructor_waits_for_line left s p q before reads after typed =
    let w = Steps-IsReading after in
    let j = Steps-IsJoined (Steps-append left before after) in ground (arith, ap length typed)
