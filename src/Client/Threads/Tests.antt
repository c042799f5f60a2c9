-- ===== src/Client/Threads/Tests.antt =====
-- The theorems on the threads of src/client/Client.cpp where a user types `/quit`.
use pirate_servers.Base.{ℕ, ◌≤◌, ◌≡◌, refl, Bool, true, false, List, [], ◌∷◌, ◌++◌, length}
use pirate_servers.Base.Outcome.{ok}
use pirate_servers.Base.Text.{has_prefix}
use pirate_servers.Wire.{Message}
use pirate_servers.Client.{Client, new_client, sent}
use pirate_servers.Client.User.{attempt, handle_user_input, handle_user_input_command}
use pirate_servers.Client.Tasks.{core_step, core_task, input_message, connection_step}
use pirate_servers.Client.Threads.{
  Process, Step, Steps, started, here, next, input_waits, types_line, input_sends, connection_waits,
  ship_message, core_waits, core_handles_input, core_ends, destroys, at_test, in_call, ended,
  joining_input, closed,
}
use pirate_servers.Base.Interleaving.{Interleaving}
use pirate_servers.Client.Threads.Order.{lines_messages, core_follows_order}
use pirate_servers.Client.Threads.Closing.{is_past_input, waits_for_line}
use pirate_servers.Client.Threads.Ending.{client_closes}

abbrev pub ann : Client
ann = new_client "ann" "pw" "tcp://localhost:5555"

abbrev pub always : ℕ → Bool
always i = true

abbrev pub quit_line : Message
quit_line = "CLIENT" ∷ "COMMAND" ∷ "/quit" ∷ []

-- The user has typed `/quit`, the input waits for the next line, and a message of the ship has come.
abbrev pub typed_quit : Process
typed_quit = record (started ann) {
  user_input_thread = in_call;
  core_thread = in_call;
  input_queue = quit_line ∷ [];
  ship_queue = ("SHIP" ∷ "ACK" ∷ []) ∷ [];
  typed = "/quit" ∷ [];
  passed = ("SHIP" ∷ "ACK" ∷ []) ∷ [];
}

types_quit : Steps (started ann) typed_quit
unfolding input_message has_prefix connection_step
types_quit =
    next
      (next
        (next
          (next
            (next (next (next here (input_waits refl refl)) (types_line "/quit" refl))
              (input_sends quit_line refl))
            (connection_waits refl refl))
          (ship_message ("SHIP" ∷ "ACK" ∷ []) refl))
        (input_waits refl refl))
      (core_waits refl refl)

-- The core has handled the line, and the client is dead.
abbrev pub after_quit : Process
after_quit = record typed_quit {
  core_thread = at_test;
  client = record ann { alive = false };
  input_queue = [];
  handled = (always, quit_line) ∷ [];
  effects = sent ("CREW" ∷ "COMMAND" ∷ "/quit" ∷ []) ∷ [];
}

handles_quit : Step typed_quit after_quit
unfolding core_step handle_user_input handle_user_input_command attempt
handles_quit =
    core_handles_input always quit_line [] (record ann { alive = false })
      (sent ("CREW" ∷ "COMMAND" ∷ "/quit" ∷ []) ∷ []) refl refl refl

pub quits : Steps (started ann) after_quit
quits = next types_quit handles_quit

abbrev destroyed : Process
destroyed = record after_quit { main = joining_input; killed = true; core_thread = ended }

destroys_client : Steps after_quit destroyed
destroys_client = next (next here (core_ends refl refl)) (destroys refl refl)

core_follows_order_example :
    (core_task ((always, quit_line) ∷ []) ann
      ≡ ok (record ann { alive = false }, sent ("CREW" ∷ "COMMAND" ∷ "/quit" ∷ []) ∷ []))
    × (mine : List Message) × (theirs : List Message) × (lines_messages ("/quit" ∷ [])
        ≡ mine ++ ([] ++ []))
    × (("SHIP" ∷ "ACK" ∷ []) ∷ [] ≡ theirs ++ ("SHIP" ∷ "ACK" ∷ []) ∷ [])
    × Interleaving mine theirs (quit_line ∷ [])
core_follows_order_example = core_follows_order ann after_quit quits

waits_for_line_example :
    (destroyed.user_input_thread ≡ in_call) × (is_past_input destroyed.main ≡ false)
waits_for_line_example = waits_for_line ann after_quit destroyed quits refl destroys_client refl

client_closes_example :
    (q : Process) × Steps after_quit q
    × (q.main ≡ closed)
    × (length q.typed ≤ 2)
    × (q.passed ≡ after_quit.passed)
client_closes_example = client_closes ann after_quit quits refl
