-- ===== src/System/Membership.antt =====
-- The ship deck (src/server/Shipdeck.cpp) and a lobby (src/server/LobbyCabin.cpp) together: the lobby
-- that handles what the deck sends it knows who is there, and a text reaches them.
use pirate_servers.Base.{
  String, ◌≡◌, ◌≢◌, refl, ap, ◌∙◌, bit, Option, none, List, [], ◌∷◌, ◌++◌, map, arith,
  if◌then◌else◌, ◌==◌,
}
use pirate_servers.Base.Map.{Map, index, lookup}
use pirate_servers.Base.Outcome.{Outcome, ok, value_of_is_ok}
use pirate_servers.Wire.{Message}
use pirate_servers.Defines.{ClientId, CabinId, CabinInfo}
use pirate_servers.Deck.{Deck, new_deck, Sent, to_server, client_at}
use pirate_servers.Deck.Crew.{handle_crewmate_input}
use pirate_servers.Deck.Services.{handle_services_cabins_input, handle_services_ships_input}
use pirate_servers.Deck.Delivery.{forward_confined}
use pirate_servers.Cabin.Poll.{handle_all}
use pirate_servers.Lobby.{Lobby, new_lobby, has, send_text, handle_shipdeck_input}
use pirate_servers.Lobby.Refinement.{present, occurrences, users_of_history, text_reaches_present}
use pirate_servers.Lobby.Thread.{history_handled}
use pirate_servers.System.Follow.{received, name_of, is_in, IsFollowed}
use pirate_servers.System.Follow.Crew.{IsNamed, crew-Gives}
use pirate_servers.System.Follow.Services.{cabins-Gives, ships-Gives}

-- The decks that messages lead to, with all that is sent on the way. The only demand is that no
-- client logs in for the first time by a name that another client has.
pub data Trace (visit : Map CabinInfo → Map CabinInfo) : Deck → List Sent → Type 0 where
  start : Trace visit new_deck []
  crew :
      {d d' : Deck} {total out : List Sent} (input : Message)
      → Trace visit d total
      → IsNamed input d
      → handle_crewmate_input visit input d ≡ ok (d', out)
      → Trace visit d' (total ++ out)
  cabins :
      {d d' : Deck} {total out : List Sent} (input : Message) (next : Option Message)
      → Trace visit d total
      → handle_services_cabins_input input next d ≡ ok (d', out)
      → Trace visit d' (total ++ out)
  ships :
      {d d' : Deck} {total out : List Sent} (input : Message)
      → Trace visit d total
      → handle_services_ships_input input d ≡ ok (d', out)
      → Trace visit d' (total ++ out)

start-IsFollowed : IsFollowed new_deck []
unfolding lookup present received
start-IsFollowed = record {
  at_clients = λ k c named cabin. absurd (named refl);
  at_names = λ u c named cabin there. cc;
  led = λ k named. absurd (named refl);
  whole = λ c cabin. refl;
}

-- What goes out for a client.
abbrev pub to_client : ClientId → String → String → Deck → Sent
to_client k sender text d =
    to_server ((client_at k d).c_server_id ∷ k ∷ "CABIN" ∷ "TEXT" ∷ sender ∷ text ∷ [])

delivered :
    (k : ClientId) (c : CabinId) (sender text : String) (d : Deck)
    → index (name_of k d) "" d.crew_name_to_id ≡ k
    → (d' : Deck) × (handle_services_cabins_input (c ∷ send_text sender text (name_of k d)) none d
        ≡ ok (d', if c == (client_at k d).curr_cabin then to_client k sender text d ∷ [] else []))
delivered k c sender text d led =
    let (d', forwarded, _, _) =
      forward_confined c "TEXT" (name_of k d) sender (text ∷ []) none d (omega arith) in
    let result : ClientId → Outcome (Deck × List Sent) = λ j.
      ok (d', if c == (client_at j d).curr_cabin then to_client j sender text d ∷ [] else []) in
    (d', forwarded ∙ ap result led)

module _ {visit : Map CabinInfo → Map CabinInfo} where
  Trace-IsFollowed : {d : Deck} {total : List Sent} → Trace visit d total → IsFollowed d total
  Trace-IsFollowed start = start-IsFollowed
  Trace-IsFollowed (crew input t named e) =
      (crew-Gives visit _ _ (Trace-IsFollowed t) input named).at _ _ e
  Trace-IsFollowed (cabins input next t e) =
      (cabins-Gives _ _ (Trace-IsFollowed t) input next).at _ _ e
  Trace-IsFollowed (ships input t e) = (ships-Gives _ _ (Trace-IsFollowed t) input).at _ _ e

  module _ (visit_users : List String → List String) {d : Deck} {total : List Sent}
      (t : Trace visit d total) (c : CabinId) (cabin : c ≢ "") where
    pub handled :
        (l : Lobby) × (sent : List Message) × (handle_all
            (handle_shipdeck_input visit_users)
            (received c total)
            new_lobby
          ≡ ok (l, sent))
    handled =
        let (p, e) =
          value_of_is_ok
            (handle_all (handle_shipdeck_input visit_users) (received c total) new_lobby)
            (history_handled visit_users (received c total) new_lobby
              ((Trace-IsFollowed t).whole c cabin)) in
        (p.0, p.1, e)

    -- For any messages that the ship deck handles from its start, in any order, in which no client
    -- logs in by the name of another, for any lobby with an id that is not empty and for any client
    -- with a name: the lobby handles all that the deck sends it without a fault, and then the client
    -- is among its users just if the deck has it online in that cabin.
    pub lobby_follows_deck :
        (k : ClientId)
        → name_of k d ≢ ""
        → (l : Lobby) × (sent : List Message) × (handle_all
              (handle_shipdeck_input visit_users)
              (received c total)
              new_lobby
            ≡ ok (l, sent))
          × (has (name_of k d) l.users ≡ is_in c k d)
    lobby_follows_deck k named =
        let (l, sent, e) = handled in
        let at = (users_of_history visit_users (received c total) l sent e (name_of k d)).0 in
        (l, sent, e, at ∙ (Trace-IsFollowed t).at_clients k c named cabin)

    -- With the same messages, a text that the lobby is then sent goes out once for a client with a
    -- name if the deck has it online in the cabin, and else not; and the deck sends what goes out
    -- for a client whose last cabin this is to that client's server and identity, with the sender's
    -- name and the text, and sends nothing for another. The set of users may yield its elements in
    -- any order.
    pub text_reaches_clients :
        (each_once : (u : String) (users : List String)
          → occurrences u (visit_users users) ≡ occurrences u users)
        (sender text : String) (k : ClientId)
        → name_of k d ≢ ""
        → (l : Lobby) × (sent : List Message) × (recipients : List String) × (d' : Deck)
          × (handle_all (handle_shipdeck_input visit_users) (received c total) new_lobby
              ≡ ok (l, sent))
          × (handle_shipdeck_input visit_users ("TEXT" ∷ sender ∷ text ∷ []) l
              ≡ ok (l, map (send_text sender text) recipients))
          × (occurrences (name_of k d) recipients ≡ bit (is_in c k d))
          × (handle_services_cabins_input (c ∷ send_text sender text (name_of k d)) none d
              ≡ ok (
                d',
                if c == (client_at k d).curr_cabin then to_client k sender text d ∷ [] else [],
              ))
    text_reaches_clients each_once sender text k named =
        let (l, sent, e) = handled in
        let followed = Trace-IsFollowed t in
        let (recipients, answered, once) =
          text_reaches_present visit_users each_once (received c total) l sent sender text [] e in
        let (d', forwarded) = delivered k c sender text d (followed.led k named) in
        (
          l,
          sent,
          recipients,
          d',
          e,
          answered,
          once (name_of k d) ∙ ap bit (followed.at_clients k c named cabin),
          forwarded,
        )
