-- ===== src/Server/Threads/Measure.antt =====
-- How many steps are left to the threads of a server (src/server/Server.cpp) once its destructor is
-- called.
use pirate_servers.Base.{ℕ, suc, ◌+◌, ◌≤◌, ◌<◌, [], ◌∷◌, length, arith}
use pirate_servers.Base.Place.{Place, at_test, in_call, ended}
use pirate_servers.Wire.{Message}
use pirate_servers.Wire.Spans.{length-append}
use pirate_servers.Server.Threads.{
  Main, Process, Step, Steps, user_waits, user_ends, types_line, ship_waits, ship_ends, ship_round,
  ship_killed, client_waits, client_ends, client_round, client_killed, destroys, joins_user,
  joins_ship, joins_client, here, next, elsewhere, joining_user, joining_ship, joining_client,
  destroyed,
}
use pirate_servers.Server.Threads.Running.{IsClosing, Step-IsClosing}

abbrev pub thread_steps : Place → ℕ
thread_steps in_call = 2
thread_steps at_test = 1
thread_steps ended = 0

abbrev pub main_steps : Main → ℕ
main_steps elsewhere = 4
main_steps joining_user = 3
main_steps joining_ship = 2
main_steps joining_client = 1
main_steps destroyed = 0

abbrev pub steps_left : Process → ℕ
steps_left p =
    main_steps p.main
    + thread_steps p.user_input_thread
    + thread_steps p.ship_listener_thread
    + thread_steps p.client_listener_thread

-- The line that a call of `std::getline` waits for.
abbrev pub lines_left : Place → ℕ
lines_left in_call = 1
lines_left _ = 0

-- A step of a server that ends.
record Closes (p q : Process) : Type 0 where
  fewer : steps_left q < steps_left p
  lines :
      length q.typed + lines_left q.user_input_thread
      ≤ length p.typed + lines_left p.user_input_thread

-- And some number of them.
pub record HasClosed (p q : Process) (n : ℕ) : Type 0 where
  pub valid : IsClosing q
  pub fewer : n + steps_left q ≤ steps_left p
  pub lines :
      length q.typed + lines_left q.user_input_thread
      ≤ length p.typed + lines_left p.user_input_thread

module _ {left : Message → Message} where
  pub count : {p q : Process} → Steps left p q → ℕ
  count here = 0
  count (next before s) = suc (count before)

  Step-Closes : {p q : Process} → Step left p q → IsClosing p → Closes p q
  Step-Closes (user_waits at living) h = ground arith
  Step-Closes (user_ends at dead) h = ground arith
  Step-Closes {p} (types_line input_str s at returns) h =
      ground (arith, length-append p.typed (input_str ∷ []))
  Step-Closes (ship_waits at living) h = ground arith
  Step-Closes (ship_ends at dead) h = ground arith
  Step-Closes (ship_round ship shipdeck out at ready returns) h = ground arith
  Step-Closes (ship_killed ship shipdeck out at told returns) h = ground arith
  Step-Closes (client_waits at living) h = ground arith
  Step-Closes (client_ends at dead) h = ground arith
  Step-Closes (client_round reqs at) h = ground arith
  Step-Closes (client_killed ready at told) h = ground arith
  Step-Closes (destroys ship_subscribed client_subscribed at) h = ground arith
  Step-Closes (joins_user at joined) h = ground arith
  Step-Closes (joins_ship at joined) h = ground arith
  Step-Closes (joins_client at joined) h = ground arith

  pub Steps-HasClosed : {p q : Process} (s : Steps left p q) → IsClosing p → HasClosed p q (count s)
  unfolding count
  Steps-HasClosed here h = record { valid = h; fewer = omega arith; lines = omega arith }
  Steps-HasClosed (next before s) h =
      let earlier = Steps-HasClosed before h in
      let last = Step-Closes s earlier.valid in
      record {
        valid = Step-IsClosing s earlier.valid;
        fewer = omega (arith, earlier.fewer, last.fewer);
        lines = omega (arith, earlier.lines, last.lines);
      }
