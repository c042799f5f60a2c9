-- ===== src/System/Network/Tests.antt =====
-- The theorems on the way between the ship deck and a lobby, after a registration, a login and a text.
use mathlib.Core.List.{Mem, Sublist}
use pirate_servers.Base.{
  String, ◌≡◌, ◌≢◌, refl, true, false, none, if◌then◌else◌, ◌==◌, some, List, [], ◌∷◌, ◌++◌,
  ne_of_test,
}
use pirate_servers.Base.Map.{lookup, index}
use pirate_servers.Base.Outcome.{ok}
use pirate_servers.Wire.{Message}
use pirate_servers.Defines.{ClientId}
use pirate_servers.System.Network.Draining.{network_settles}
use pirate_servers.System.Network.Settling.{Exchanges}
use pirate_servers.Deck.{Deck, client_at, to_server, to_cabins}
use pirate_servers.Deck.Crew.{handle_crewmate_input, handle_crewmate_input_text}
use pirate_servers.Deck.Services.{handle_services_cabins_input}
use pirate_servers.Deck.Examples.{
  in_order, one_client, registering, port_info, ann_logs_in, registers, logs_in,
}
use pirate_servers.Cabin.Poll.{handle_all}
use pirate_servers.Lobby.{Lobby, has, insert, send_text, handle_shipdeck_input}
use pirate_servers.Lobby.Order.{Said, attended, sent_to}
use pirate_servers.System.Follow.{received, name_of, is_in}
use pirate_servers.System.Follow.Crew.{IsNamed}
use pirate_servers.System.Speech.{says}
use pirate_servers.System.MembershipTests.{ann-IsNamed, users_in_order}
use pirate_servers.System.Network.{
  Network, new_network, Reach, crew, cabins, exchange, by_lobby, lobby_handles, start, next,
}
use pirate_servers.System.Network.Arrival.{lobby_catches_up, texts_in_order, next_text_delivered}

abbrev Reached : Network → Type 0
Reached n = Reach in_order users_in_order "P" n

-- Two messages wait for the lobby.
abbrev logged_in : Network
logged_in = record new_network {
  deck = one_client;
  inbox = ("SHIP" ∷ "SUCCESS" ∷ "P" ∷ []) ∷ ("JOIN" ∷ "ann" ∷ []) ∷ [];
  total =
      to_cabins ("P" ∷ "SHIP" ∷ "SUCCESS" ∷ "P" ∷ [])
      ∷ to_server ("S" ∷ "A" ∷ "SHIP" ∷ "ACK" ∷ [])
      ∷ to_cabins ("" ∷ "DISCONNECT" ∷ "ann" ∷ [])
      ∷ to_cabins ("P" ∷ "JOIN" ∷ "ann" ∷ [])
      ∷ [];
}

logged_in-Reached : Reached logged_in
unfolding received says
logged_in-Reached =
    next (next start (cabins registering (some port_info) _ _ registers))
      (crew ann_logs_in one_client _ ann-IsNamed logs_in)

lobby_catches_up_example :
    (l : Lobby) × (sent : List Message) × (handle_all
        (handle_shipdeck_input users_in_order)
        (("SHIP" ∷ "SUCCESS" ∷ "P" ∷ []) ∷ ("JOIN" ∷ "ann" ∷ []) ∷ [])
        logged_in.lobby
      ≡ ok (l, sent))
    × (has "ann" l.users ≡ true)
unfolding lookup
lobby_catches_up_example =
    lobby_catches_up in_order users_in_order "P" logged_in logged_in-Reached "A"
      (ne_of_test "P" "" refl) (ne_of_test "ann" "" refl)

-- The lobby has handled them, and then a text of the client; what it answers waits for the deck.
abbrev texted : Network
texted = record {
  deck = one_client;
  lobby = record { users = "ann" ∷ [] };
  inbox = [];
  outbox = send_text "ann" "ahoy" "ann" ∷ [];
  total = logged_in.total ++ to_cabins ("P" ∷ "TEXT" ∷ "ann" ∷ "ahoy" ∷ []) ∷ [];
  said = ("ann", "ahoy") ∷ [];
  heard =
      ("SHIP" ∷ "SUCCESS" ∷ "P" ∷ []) ∷ ("JOIN" ∷ "ann" ∷ []) ∷ ("TEXT" ∷ "ann" ∷ "ahoy" ∷ []) ∷ [];
  taken = [];
}

texts_deck :
    handle_crewmate_input in_order ("S" ∷ "A" ∷ "CREW" ∷ "TEXT" ∷ "ahoy" ∷ []) one_client
    ≡ ok (one_client, to_cabins ("P" ∷ "TEXT" ∷ "ann" ∷ "ahoy" ∷ []) ∷ [])
unfolding handle_crewmate_input handle_crewmate_input_text lookup
texts_deck = refl

text-IsNamed : IsNamed ("S" ∷ "A" ∷ "CREW" ∷ "TEXT" ∷ "ahoy" ∷ []) one_client
text-IsNamed crew_id username at_1 at_3 at_4 new = cc

texted-Reached : Reached texted
unfolding received says lookup handle_shipdeck_input has insert
texted-Reached =
    next
      (next
        (next (next logged_in-Reached (exchange (by_lobby (lobby_handles _ _ _ _ refl refl))))
          (exchange (by_lobby (lobby_handles _ _ _ _ refl refl))))
        (crew ("S" ∷ "A" ∷ "CREW" ∷ "TEXT" ∷ "ahoy" ∷ []) one_client _ text-IsNamed texts_deck))
      (exchange (by_lobby (lobby_handles _ _ _ _ refl refl)))

texts_in_order_example :
    Sublist (sent_to "ann" (send_text "ann" "ahoy" "ann" ∷ [])) (("ann", "ahoy") ∷ [])
texts_in_order_example =
    texts_in_order in_order users_in_order "P" texted texted-Reached (λ u users. refl) "ann"

next_text_delivered_example :
    (username text user : String) × (d : Deck) × Mem {A = Said}
      (username, text)
      (("ann", "ahoy") ∷ [])
    × (send_text "ann" "ahoy" "ann" ≡ send_text username text user)
    × (let crew_id = index user "" one_client.crew_name_to_id in
        let client = client_at crew_id one_client in
        handle_services_cabins_input ("P" ∷ send_text "ann" "ahoy" "ann") none one_client
        ≡ ok (
          d,
          if "P" == client.curr_cabin
              then to_server
                  (client.c_server_id ∷ crew_id ∷ "CABIN" ∷ "TEXT" ∷ username ∷ text ∷ [])
                ∷ []
              else [],
        ))
next_text_delivered_example =
    next_text_delivered in_order users_in_order "P" texted texted-Reached (λ u users. refl) _ _ refl

network_settles_example :
    (n : Network) × Exchanges in_order users_in_order "P" texted n
    × (n.inbox ≡ [])
    × (n.outbox ≡ [])
    × (n.said ≡ ("ann", "ahoy") ∷ [])
    × ((u : String) → sent_to u n.taken ≡ attended u false (received "P" texted.total))
    × ((k : ClientId)
        → name_of k one_client ≢ ""
        → has (name_of k one_client) n.lobby.users ≡ is_in "P" k one_client)
network_settles_example =
    network_settles in_order users_in_order "P" texted texted-Reached (ne_of_test "P" "" refl)
      (λ u users. refl)
