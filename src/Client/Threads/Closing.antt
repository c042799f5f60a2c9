-- ===== src/Client/Threads/Closing.antt =====
-- How a client ends (src/client/Client.cpp and client_main.cpp): what the destructor waits for.
use pirate_servers.Base.{◌≤◌, ◌≡◌, ap, Bool, true, false, [], ◌∷◌, length, arith}
use pirate_servers.Wire.Spans.{length-append}
use pirate_servers.Client.{Client}
use pirate_servers.Client.Threads.{
  Main, Process, Step, Steps, started, Steps-append, input_waits, input_ends, types_line,
  input_sends, connection_waits, connection_ends, ship_message, control_message, core_waits,
  core_ends, core_handles_input, core_handles_ship, sleeps, destroys, joins_input, joins_connection,
  joins_core, here, next, in_call, ended, waiting, joining_input,
}

abbrev pub is_closing : Main → Bool
is_closing waiting = false
is_closing _ = true

abbrev pub is_past_input : Main → Bool
is_past_input waiting = false
is_past_input joining_input = false
is_past_input _ = true

-- Behind the wait the client is dead and the kill message sent; behind the first join the thread of
-- the user's input has ended.
pub record IsClosing (p : Process) : Type 0 where
  pub dead : is_closing p.main ≡ true → p.client.alive ≡ false
  pub told : is_closing p.main ≡ true → p.killed ≡ true
  pub joined : is_past_input p.main ≡ true → p.user_input_thread ≡ ended
  pub live : p.core_thread ≡ in_call → p.client.alive ≡ true

Step-IsClosing : {p q : Process} → Step p q → IsClosing p → IsClosing q
Step-IsClosing (input_waits e alive) h = ground arith
Step-IsClosing (input_ends e dead) h = ground arith
Step-IsClosing (types_line input_str e) h = ground arith
Step-IsClosing (input_sends client_input e) h = ground arith
Step-IsClosing (connection_waits e alive) h = ground arith
Step-IsClosing (connection_ends e dead) h = ground arith
Step-IsClosing (ship_message reqs e) h = ground arith
Step-IsClosing (control_message e killed) h = ground arith
Step-IsClosing (core_waits e alive) h = ground arith
Step-IsClosing (core_ends e dead) h = ground arith
Step-IsClosing (core_handles_input sends reqs rest c' out e first returns) h = ground arith
Step-IsClosing (core_handles_ship sends reqs rest c' out e first returns) h = ground arith
Step-IsClosing (sleeps e alive) h = h
Step-IsClosing (destroys e dead) h = ground arith
Step-IsClosing (joins_input e joined) h = ground arith
Step-IsClosing (joins_connection e joined) h = ground arith
Step-IsClosing (joins_core e joined) h = ground arith

pub Steps-IsClosing : {c : Client} {p : Process} → Steps (started c) p → IsClosing p
Steps-IsClosing here = ground arith
Steps-IsClosing (next before s) = Step-IsClosing s (Steps-IsClosing before)

-- The lines that were typed stay, and a thread that waits for one waits until there is one more.
record IsWaiting (p q : Process) : Type 0 where
  no_fewer : length p.typed ≤ length q.typed
  waits : length q.typed ≤ length p.typed → q.user_input_thread ≡ in_call

Step-IsWaiting : {p q r : Process} → Step q r → IsWaiting p q → IsWaiting p r
Step-IsWaiting (input_waits e alive) h = ground arith
Step-IsWaiting (input_ends e dead) h = ground arith
Step-IsWaiting {p} {q} (types_line input_str e) h =
    ground (arith, length-append q.typed (input_str ∷ []))
Step-IsWaiting (input_sends client_input e) h = ground arith
Step-IsWaiting (connection_waits e alive) h = ground arith
Step-IsWaiting (connection_ends e dead) h = ground arith
Step-IsWaiting (ship_message reqs e) h = ground arith
Step-IsWaiting (control_message e killed) h = ground arith
Step-IsWaiting (core_waits e alive) h = ground arith
Step-IsWaiting (core_ends e dead) h = ground arith
Step-IsWaiting (core_handles_input sends reqs rest c' out e first returns) h = ground arith
Step-IsWaiting (core_handles_ship sends reqs rest c' out e first returns) h = ground arith
Step-IsWaiting (sleeps e alive) h = h
Step-IsWaiting (destroys e dead) h = ground arith
Step-IsWaiting (joins_input e joined) h = ground arith
Step-IsWaiting (joins_connection e joined) h = ground arith
Step-IsWaiting (joins_core e joined) h = ground arith

Steps-IsWaiting : {p q : Process} → Steps p q → p.user_input_thread ≡ in_call → IsWaiting p q
Steps-IsWaiting here e = ground arith
Steps-IsWaiting (next before s) e = Step-IsWaiting s (Steps-IsWaiting before e)

-- While the client reads a line and the user types none, the program does not end, also after the
-- client has died, as by `/quit`: the destructor stands at its first join or is not called yet.
pub waits_for_line :
    (c : Client) (p q : Process)
    → Steps (started c) p
    → p.user_input_thread ≡ in_call
    → Steps p q
    → q.typed ≡ p.typed
    → (q.user_input_thread ≡ in_call) × (is_past_input q.main ≡ false)
waits_for_line c p q before reads after same =
    let w = Steps-IsWaiting after reads in
    let closing = Steps-IsClosing (Steps-append before after) in
    let still : q.user_input_thread ≡ in_call = w.waits (ground (arith, ap length same)) in
    (still, ground arith)
