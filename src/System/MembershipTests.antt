-- ===== src/System/MembershipTests.antt =====
-- The theorems on the ship deck and a lobby, after a registration and a login.
use pirate_servers.Base.{ℕ, arith, Bool, String, ◌≡◌, refl, sym, true, some, List, [], ◌∷◌}
use pirate_servers.Base.Map.{lookup}
use pirate_servers.Base.Outcome.{ok}
use pirate_servers.Wire.{Message}
use pirate_servers.Defines.{zmq_info}
use pirate_servers.Deck.{to_server, to_cabins, Sent}
use pirate_servers.Deck.Examples.{
  in_order, one_cabin, one_client, registering, port_info, ann_logs_in, registers, logs_in,
}
use pirate_servers.System.Follow.{received}
use pirate_servers.System.Follow.Crew.{IsNamed}
use pirate_servers.Deck.Crew.{all_infos}
use pirate_servers.Client.{Client, new_client, sent}
use pirate_servers.System.Answers.{all_readable, crew_answers_readable}
use pirate_servers.System.Chain.Tests.{reachable, ann_connects}
use pirate_servers.System.Session.{session_accepted}
use mathlib.Core.List.{Perm}
use mathlib.Core.List.Perm as Permutation
use pirate_servers.Deck.Crew.{handle_crewmate_input}
use pirate_servers.Client.Ship.{labelled}
use pirate_servers.Client.Tasks.{core_step, log_in}
use pirate_servers.System.Showall.{in_threes, infos, showall_journey}
use pirate_servers.Client.Threads.Tests as ThreadsTests
use pirate_servers.Client.Threads.Tests.{after_quit, quits}
use pirate_servers.System.Lines.{all_accepted}
use pirate_servers.System.Membership.{Trace, start, crew, cabins}

abbrev told : List Sent
told =
    to_cabins ("P" ∷ "SHIP" ∷ "SUCCESS" ∷ "P" ∷ [])
    ∷ to_server ("S" ∷ "A" ∷ "SHIP" ∷ "ACK" ∷ [])
    ∷ to_cabins ("" ∷ "DISCONNECT" ∷ "ann" ∷ [])
    ∷ to_cabins ("P" ∷ "JOIN" ∷ "ann" ∷ [])
    ∷ []

pub ann-IsNamed : IsNamed ann_logs_in one_cabin
unfolding lookup
ann-IsNamed crew_id username at_1 at_3 at_4 new k named e = named (sym e)

trace : Trace in_order one_client told
trace = crew ann_logs_in (cabins registering (some port_info) start registers) ann-IsNamed logs_in

received_by_port : received "P" told ≡ ("SHIP" ∷ "SUCCESS" ∷ "P" ∷ []) ∷ ("JOIN" ∷ "ann" ∷ []) ∷ []
unfolding received
received_by_port = refl

abbrev always : ℕ → Bool
always i = true

abbrev bob : Client
bob = new_client "bob" "pw" "tcp://localhost:5555"

abbrev pub users_in_order : List String → List String
users_in_order users = users

crew_answers_readable_example :
    all_readable true 1 always bob (
      to_server ("S" ∷ "A" ∷ "SHIP" ∷ "ACK" ∷ [])
      ∷ to_cabins ("" ∷ "DISCONNECT" ∷ "ann" ∷ [])
      ∷ to_cabins ("P" ∷ "JOIN" ∷ "ann" ∷ [])
      ∷ [])
    ≡ true
unfolding all_infos zmq_info log_in lookup
crew_answers_readable_example =
    crew_answers_readable 1 always bob in_order one_cabin (omega arith) ann_logs_in one_client _
      logs_in

session_accepted_example :
    all_accepted in_order "S" "A" one_client
      (sent ("CREW" ∷ "LOGIN" ∷ "ann" ∷ "pw" ∷ []) ∷ sent ("CREW" ∷ "COMMAND" ∷ "/quit" ∷ []) ∷ [])
    ≡ true
session_accepted_example =
    session_accepted in_order "S" "A" one_client reachable "ann" "pw" "tcp://localhost:5555"
      (some 1) ("SHIP" ∷ "ACK" ∷ []) ThreadsTests.ann
      (sent ("CREW" ∷ "LOGIN" ∷ "ann" ∷ "pw" ∷ []) ∷ []) after_quit ann_connects quits refl

showall_journey_example :
    (frames : Message) × (handle_crewmate_input in_order
        ("S" ∷ "A" ∷ "CREW" ∷ "COMMAND" ∷ "/showall" ∷ [])
        one_client
      ≡ ok (one_client, to_server ("S" ∷ "A" ∷ "SHIP" ∷ "INFO" ∷ frames) ∷ []))
    × Perm (in_threes frames) (infos one_client.cabin_id_to_info)
    × (core_step always ("SHIP" ∷ "INFO" ∷ frames) bob ≡ ok (bob, labelled "SHIP INFO: " frames))
unfolding lookup all_infos zmq_info
showall_journey_example =
    showall_journey in_order "S" "A" "CREW" [] one_client always bob (λ m. Permutation.refl m) refl
      (omega arith)
