-- ===== src/System/Chain/Tests.antt =====
-- A user has logged in and typed a text, which has come to the cabin: the theorems on the way of a text.
use pirate_servers.Base.{
  ◌≤◌, String, Bool, ◌≡◌, refl, ap, false≢true, ◌==◌, true, some, List, [], ◌∷◌, ◌++◌, length,
}
use pirate_servers.Base.Map.{lookup}
use pirate_servers.Base.Outcome.{ok}
use pirate_servers.Base.Text.{has_prefix}
use pirate_servers.Wire.{Message}
use pirate_servers.Deck.{new_deck, to_cabins}
use pirate_servers.Deck.Crew.{handle_crewmate_input, handle_crewmate_input_text}
use pirate_servers.Deck.Examples.{in_order, one_client}
use pirate_servers.Deck.Threads as DeckThreads
use pirate_servers.Deck.Threads.Tests.{both_wait, comes_to_wait}
use pirate_servers.Deck.Workers.{dispatch_server}
use pirate_servers.Base.Place.{at_test}
use pirate_servers.Client.{sent}
use pirate_servers.Client.Tasks.{connect, log_in, core_step, input_message, connection_step}
use pirate_servers.Client.Threads as ClientThreads
use pirate_servers.Client.Threads.Tests.{ann, always}
use pirate_servers.Client.User.{attempt, handle_user_input, handle_user_input_text}
use pirate_servers.Server.{to_shipdeck, client_listener_task}
use pirate_servers.Server.Threads as ServerThreads
use pirate_servers.Server.Threads.Tests.{
  emptied, running, login_message, answered, reaches_answered,
}
use pirate_servers.Server.Threads.Traffic.{to_deck, from_crew}
use pirate_servers.System.Chain.{keyboard_to_cabins}
use pirate_servers.System.Typing.Balance.{texts_go_out}

abbrev ahoy : Message
ahoy = "CREW" ∷ "TEXT" ∷ "ahoy" ∷ []

abbrev ahoy_line : Message
ahoy_line = "CLIENT" ∷ "TEXT" ∷ "ahoy" ∷ []

-- The user has typed a text, which is sent, and another, which waits for the core.
abbrev has_typed : ClientThreads.Process
has_typed = record (ClientThreads.started ann) {
  input_queue = ("CLIENT" ∷ "TEXT" ∷ "land" ∷ []) ∷ [];
  typed = "ahoy" ∷ "land" ∷ [];
  handled = (always, ahoy_line) ∷ [];
  effects = sent ahoy ∷ [];
}

types_ahoy : ClientThreads.Steps (ClientThreads.started ann) has_typed
unfolding input_message has_prefix connection_step core_step handle_user_input
    handle_user_input_text attempt
types_ahoy =
    ClientThreads.next
      (ClientThreads.next
        (ClientThreads.next
          (ClientThreads.next
            (ClientThreads.next
              (ClientThreads.next
                (ClientThreads.next
                  (ClientThreads.next ClientThreads.here (ClientThreads.input_waits refl refl))
                  (ClientThreads.types_line "ahoy" refl))
                (ClientThreads.input_sends ahoy_line refl))
              (ClientThreads.core_waits refl refl))
            (ClientThreads.core_handles_input always ahoy_line [] ann (sent ahoy ∷ []) refl refl
              refl))
          (ClientThreads.input_waits refl refl))
        (ClientThreads.types_line "land" refl))
      (ClientThreads.input_sends ("CLIENT" ∷ "TEXT" ∷ "land" ∷ []) refl)

texts_go_out_example :
    (lost : List String) × (("ahoy" ∷ "land" ∷ [])
      ≡ ("ahoy" ∷ []) ++ (lost ++ (("land" ∷ []) ++ [])))
    × (length lost ≤ 1)
    × (true ≡ true → lost ≡ [])
unfolding has_prefix
texts_go_out_example = texts_go_out ann has_typed types_ahoy refl

-- The server has passed on the login and the text.
abbrev has_passed : ServerThreads.Process
has_passed = record answered {
  crew_rounds = (true, some login_message) ∷ (true, some ("A" ∷ ahoy)) ∷ [];
  passed = answered.passed ++ to_shipdeck ("A" ∷ ahoy) ∷ [];
}

passes_ahoy : ServerThreads.Steps emptied (ServerThreads.started running) has_passed
unfolding client_listener_task
passes_ahoy =
    ServerThreads.next (ServerThreads.next reaches_answered (ServerThreads.client_waits refl refl))
      (ServerThreads.client_round ("A" ∷ ahoy) refl)

-- And the deck has told the cabin.
abbrev has_told : DeckThreads.Process
has_told = record both_wait {
  server_listener_thread = at_test;
  served = both_wait.served ++ ("S" ∷ "A" ∷ ahoy) ∷ [];
  sent = both_wait.sent ++ to_cabins ("P" ∷ "TEXT" ∷ "ann" ∷ "ahoy" ∷ []) ∷ [];
}

tells_port :
    dispatch_server in_order ("S" ∷ "A" ∷ ahoy) one_client
    ≡ ok (one_client, to_cabins ("P" ∷ "TEXT" ∷ "ann" ∷ "ahoy" ∷ []) ∷ [])
unfolding dispatch_server handle_crewmate_input handle_crewmate_input_text lookup
tells_port = refl

tells_ahoy : DeckThreads.Steps in_order (DeckThreads.started new_deck) has_told
tells_ahoy =
    DeckThreads.next comes_to_wait
      (DeckThreads.server_message ("S" ∷ "A" ∷ ahoy) one_client _ refl tells_port)

abbrev pub reachable : String → Bool
reachable address = true

pub ann_connects :
    connect reachable "ann" "pw" "tcp://localhost:5555" (some 1) ("SHIP" ∷ "ACK" ∷ [])
    ≡ ok (ann, sent ("CREW" ∷ "LOGIN" ∷ "ann" ∷ "pw" ∷ []) ∷ [])
unfolding connect log_in
ann_connects = refl

keyboard_to_cabins_example : (rest : List String) × ("ahoy" ∷ rest ≡ "ahoy" ∷ "land" ∷ [])
unfolding has_prefix to_deck from_crew
keyboard_to_cabins_example =
    keyboard_to_cabins emptied in_order "S" "A" "ann" "pw" "tcp://localhost:5555" reachable (some 1)
      ("SHIP" ∷ "ACK" ∷ []) ann (sent ("CREW" ∷ "LOGIN" ∷ "ann" ∷ "pw" ∷ []) ∷ []) has_typed running
      has_passed has_told [] [] ann_connects types_ahoy passes_ahoy tells_ahoy refl refl refl
      (λ e. false≢true (ap (λ (name : String). name == "") e))
      (λ e. false≢true (ap (λ (id : String). id == "") e)) refl refl
