-- ===== src/Deck/Tests.antt =====
-- The theorems on the handlers of src/server/Shipdeck.cpp at concrete messages, and runs of them.
use pirate_servers.Base.{
  ne_of_test, ◌≡◌, refl, ap, sym, Option, none, some, [], ◌∷◌, true, false, arith, ◌%◌,
}
use pirate_servers.Base.Map.{index, lookup, insert, tally, or_default}
use pirate_servers.Base.Outcome.{ok, out_of_range}
use pirate_servers.Base.Word.{u32_mod}
use pirate_servers.Wire.{Message, frame}
use pirate_servers.Defines.{ClientId}
use pirate_servers.Deck.{Deck, to_cabins, to_server, client_at}
use pirate_servers.Deck.Move.{count_players, leave_cabin, change_player_cabins}
use pirate_servers.Deck.Crew.{quit, login, handle_crewmate_input}
use pirate_servers.Deck.Faults.{fault_of, listeners_fault_exactly}
use pirate_servers.Deck.Namesakes.{login_takes_name}
use pirate_servers.Deck.Services.{handle_services_cabins_input}
use pirate_servers.Deck.Workers.{dispatch_server}
use pirate_servers.Deck.Count.{IsCounted, occupancy, playing}
use pirate_servers.Deck.Count.Quits.{quit_again_miscounts}
use pirate_servers.Deck.Reach.{Orderly, Orderly-IsCounted}
use pirate_servers.Deck.Delivery.{change_player_cabins_moves}
use pirate_servers.Deck.Access.{login_enters}
use pirate_servers.Deck.Examples.{
  in_order, port, one_cabin, ann, one_client, registering, port_info, ann_logs_in, registers,
  logs_in,
}

own_reply : (m : Message) (reply : Message) → some m ≡ some reply → frame reply 0 ≡ frame m 0
own_reply m reply e = ap (λ (o : Option Message). frame (or_default [] o) 0) (sym e)

new_sender :
    (crew_id : ClientId)
    → frame ann_logs_in 1 ≡ ok crew_id
    → (client_at crew_id one_cabin).c_online ≡ true
unfolding lookup
new_sender crew_id e = refl

one_cabin-Orderly : Orderly in_order one_cabin
one_cabin-Orderly =
    Orderly.cabins registering (some port_info) Orderly.start (own_reply port_info) registers

one_client-Orderly : Orderly in_order one_client
one_client-Orderly = Orderly.crew ann_logs_in one_cabin-Orderly new_sender logs_in

Orderly-IsCounted_example :
    playing "P" one_client.cabin_id_to_info ≡ occupancy "P" one_client.client_map % u32_mod
Orderly-IsCounted_example = Orderly-IsCounted "P" (ne_of_test "P" "" refl) one_client-Orderly

-- The client has quit, and the deck has counted it out.
abbrev ann_gone : Deck
ann_gone = record one_client {
  cabin_id_to_info = ("P", port) ∷ [];
  client_map = ("A", record ann { c_online = false }) ∷ [];
}

quits : quit "A" one_client ≡ (ann_gone, to_cabins ("P" ∷ "DISCONNECT" ∷ "ann" ∷ []) ∷ [])
unfolding quit change_player_cabins leave_cabin count_players lookup insert
quits = refl

-- The second quit takes the count from 0 to 2^32 - 1.
quits_again : playing "P" (quit "A" ann_gone).0.cabin_id_to_info ≡ 4294967295
unfolding quit change_player_cabins leave_cabin count_players lookup insert
quits_again = refl

quit_again_miscounts_example : ¬ IsCounted "P" (quit "A" ann_gone).0
unfolding lookup tally
quit_again_miscounts_example =
    quit_again_miscounts "P" (ne_of_test "P" "" refl) "A" ann_gone refl refl refl

abbrev two_cabins : Deck
two_cabins = record one_client {
  cabin_name_to_id = ("Port", "P") ∷ ("Quay", "Q") ∷ [];
  cabin_id_to_info =
      ("P", record port { curr_playing = 1 })
      ∷ ("Q", record { g_id = "Q"; title = "Quay"; description = "a quay"; curr_playing = 0 })
      ∷ [];
}

change_player_cabins_moves_example :
    ((change_player_cabins "A" "Q" two_cabins).1
      ≡ to_cabins ("P" ∷ "DISCONNECT" ∷ "ann" ∷ []) ∷ to_cabins ("Q" ∷ "JOIN" ∷ "ann" ∷ []) ∷ [])
    × (client_at "A" (change_player_cabins "A" "Q" two_cabins).0 ≡ record ann { curr_cabin = "Q" })
    × (playing "P" (change_player_cabins "A" "Q" two_cabins).0.cabin_id_to_info ≡ 0)
unfolding lookup
change_player_cabins_moves_example =
    change_player_cabins_moves "A" "Q" two_cabins "A" "P" refl refl (ne_of_test "P" "" refl)

login_enters_example :
    (d' : Deck) × (handle_crewmate_input in_order ann_logs_in one_cabin
      ≡ ok (
        d',
        to_server ("S" ∷ "A" ∷ "SHIP" ∷ "ACK" ∷ [])
            ∷ to_cabins ("" ∷ "DISCONNECT" ∷ "ann" ∷ [])
            ∷ to_cabins ("P" ∷ "JOIN" ∷ "ann" ∷ [])
            ∷ [],
      ))
    × (client_at "A" d' ≡ ann)
    × (index "ann" "" d'.crew_name_to_id ≡ "A")
unfolding lookup
login_enters_example = login_enters in_order "S" "A" "ann" "pw" [] one_cabin refl refl

listeners_fault_exactly_example :
    (fault_of (dispatch_server in_order ("S" ∷ "B" ∷ "CREW" ∷ "LOGIN" ∷ "bob" ∷ []) one_client)
      ≡ some out_of_range)
    × (fault_of (handle_services_cabins_input ("P" ∷ "REGISTRATION" ∷ "JOIN" ∷ []) none one_client)
        ≡ none)
unfolding lookup
listeners_fault_exactly_example =
    listeners_fault_exactly in_order ("S" ∷ "B" ∷ "CREW" ∷ "LOGIN" ∷ "bob" ∷ [])
      ("P" ∷ "REGISTRATION" ∷ "JOIN" ∷ []) none one_client (omega arith)

-- A second client by the name of the first, and a text for that name from the cabin of both.
login_takes_name_example :
    let entered = (login in_order "T" "B" "ann" "pw2" one_client).0 in
    (client_at "A" entered ≡ ann)
    × (d' : Deck) × (handle_services_cabins_input
          ("P" ∷ "SEND" ∷ "TEXT" ∷ "ann" ∷ "cat" ∷ "hi" ∷ [])
          none
          entered
        ≡ ok (d', to_server ("T" ∷ "B" ∷ "CABIN" ∷ "TEXT" ∷ "cat" ∷ "hi" ∷ []) ∷ []))
unfolding lookup
login_takes_name_example =
    login_takes_name in_order "T" "B" "ann" "pw2" one_client refl "A" "P" "TEXT" "cat" ("hi" ∷ [])
      none (ne_of_test "B" "A" refl) (omega arith)
