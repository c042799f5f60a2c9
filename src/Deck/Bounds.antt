-- ===== src/Deck/Bounds.antt =====
-- How much one message of the crew makes the ship deck (src/server/Shipdeck.cpp) keep
-- and send.
use pirate_servers.Base.{
  subst, sym, ◌∙◌, ◌≢◌, ℕ, ◌+◌, ◌≤◌, String, ◌≡◌, List, [], ◌∷◌, length, arith, if◌then◌else◌,
}
use pirate_servers.Base.Map.{
  length-insert, length_with, length_with-insert, length_with-touch, Map, contains, insert, touch,
}
use pirate_servers.Base.Outcome.{ok}
use pirate_servers.Wire.{Message, frame}
use pirate_servers.Defines.{
  ClientId, CabinId, ServerId, CabinInfo, no_client, set_cabin_id, set_offline, set_crew_id,
  set_server_id, client_info,
}
use pirate_servers.Deck.{Deck, Sent, to_cabins, client_at, touch_client, touch_name, cabin_named}
use pirate_servers.Deck.Move.{change_player_cabins, enter_cabin, modify_client}
use pirate_servers.Deck.Crew.{
  leave, join, show, ping, showall, quit, login, handle_crewmate_input,
  handle_crewmate_input_command, handle_crewmate_input_text,
}
use pirate_servers.Deck.Keeps.{Gives, keeps_rules}
use pirate_servers.Deck.Change.{Change, refused, moved, sent_away, change_player_cabins-Change}
use pirate_servers.Deck.Known.{KnownIf}
use pirate_servers.Deck.Known.Crew.{crew-Steady}
use pirate_servers.Deck.Count.Moves.{client_map-leave_cabin}

-- The clients are at most those before and the one of the message, the messages at most so many.
abbrev pub Within : ClientId → ℕ → Deck → Deck → List Sent → Type 0
Within crew_id n d d' out =
    (length d'.client_map ≤ length_with crew_id d.client_map) × (length out ≤ n)

module _ (crew_id : ClientId) where
  Change-Within :
      (cab_id : CabinId) (d : Deck) (r : Deck × List Sent)
      → Change crew_id cab_id d r
      → Within crew_id 2 d r.0 r.1
  unfolding enter_cabin
  Change-Within cab_id d r (refused online e) =
      rw e (ground (arith, length_with-touch crew_id no_client d.client_map))
  Change-Within cab_id d r (sent_away offline e) =
      rw (e, client_map-leave_cabin (client_at crew_id d).curr_cabin (touch_client crew_id d))
        (ground (arith, length_with-touch crew_id no_client d.client_map))
  Change-Within cab_id d r (moved online e) =
      rw (e, client_map-leave_cabin (client_at crew_id d).curr_cabin (touch_client crew_id d))
        (ground (
          arith,
          length-insert crew_id (set_cabin_id cab_id (client_at crew_id (touch_client crew_id d)))
              (touch crew_id no_client d.client_map),
          length_with-touch crew_id no_client d.client_map,
        ))

  change-Within :
      (cab_id : CabinId) (d : Deck)
      → let r = change_player_cabins crew_id cab_id d in Within crew_id 2 d r.0 r.1
  change-Within cab_id d = Change-Within cab_id d _ (change_player_cabins-Change crew_id cab_id d)

  module _ (d : Deck) where
    touch-Within : length (touch_client crew_id d).client_map ≤ length_with crew_id d.client_map
    touch-Within = ground (arith, length_with-touch crew_id no_client d.client_map)

    leave-Within : let r = leave crew_id d in Within crew_id 3 d r.0 r.1
    unfolding leave
    leave-Within = ground (
      arith,
      touch-Within,
      length_with-touch crew_id no_client d.client_map,
      change-Within (cabin_named d.default_cabin d)
          (touch_client crew_id (touch_name d.default_cabin d)),
    )

    join-Within : (name : String) → let r = join crew_id name d in Within crew_id 3 d r.0 r.1
    unfolding join
    join-Within name = ground (
      arith,
      touch-Within,
      length_with-touch crew_id no_client d.client_map,
      change-Within (cabin_named name d) (touch_client crew_id (touch_name name d)),
    )

    show-Within : (s_id : ServerId) → let r = show s_id crew_id d in Within crew_id 3 d r.0 r.1
    unfolding show
    show-Within s_id = ground (arith, touch-Within)

    quit-Within : let r = quit crew_id d in Within crew_id 3 d r.0 r.1
    unfolding quit
    quit-Within = ground (
      arith,
      length_with-insert crew_id (set_offline (client_at crew_id d)) d.client_map,
      change-Within "" (modify_client crew_id set_offline d),
    )

    ping-Within : (s_id : ServerId) → let r = ping s_id crew_id d in Within crew_id 3 d r.0 r.1
    unfolding ping
    ping-Within s_id = ground arith

    module _ (visit : Map CabinInfo → Map CabinInfo) where
      showall-Within :
          (s_id : ServerId) → let r = showall visit s_id crew_id d in Within crew_id 3 d r.0 r.1
      unfolding showall
      showall-Within s_id = ground arith

      login-Within :
          (s_id : ServerId) (username password : String)
          → let r = login visit s_id crew_id username password d in Within crew_id 3 d r.0 r.1
      unfolding login
      login-Within s_id username password =
          let client = set_crew_id crew_id (set_server_id s_id (client_info username password)) in
          let known = record d {
            client_map = insert crew_id client d.client_map;
            crew_name_to_id = insert username crew_id d.crew_name_to_id;
          } in
          ground (
            arith,
            length_with-insert crew_id client d.client_map,
            change-Within (cabin_named d.default_cabin d) (touch_name d.default_cabin known),
          )

      text-Within :
          (text : Message) → Within crew_id 3 d (touch_client crew_id d) (to_cabins text ∷ [])
      text-Within text = ground (arith, touch-Within)

      nothing-Within : Within crew_id 3 d d []
      nothing-Within = ground arith

-- The bounds of the client that a message names as its sender.
abbrev Bounded : Message → Deck → Deck → List Sent → Type 0
Bounded input d d' out =
    (crew_id : ClientId) → frame input 1 ≡ ok crew_id → Within crew_id 3 d d' out

same_sender :
    (input : Message) (sender crew_id : ClientId)
    → frame input 1 ≡ ok sender
    → frame input 1 ≡ ok crew_id
    → sender ≡ crew_id
same_sender input sender crew_id e e' = cc

Within-Bounded :
    (input : Message) (d d' : Deck) (out : List Sent) (sender : ClientId)
    → frame input 1 ≡ ok sender
    → Within sender 3 d d' out
    → Bounded input d d' out
Within-Bounded input d d' out sender e h crew_id e' =
    subst (λ k. Within k 3 d d' out) (same_sender input sender crew_id e e') h

module _ (visit : Map CabinInfo → Map CabinInfo) where
  ruleset within_rules = (
    keeps_rules, Within-Bounded, leave-Within, join-Within, show-Within, quit-Within,
    showall-Within, ping-Within, login-Within, text-Within, nothing-Within,
  )

  handle_crewmate_input_command-Bounded :
      (input : Message) (d : Deck)
      → Gives (Bounded input d) (handle_crewmate_input_command visit input d)
  unfolding handle_crewmate_input_command
  handle_crewmate_input_command-Bounded input d = search within_rules depth 30 fits 5000

  handle_crewmate_input-Bounded :
      (input : Message) (d : Deck) → Gives (Bounded input d) (handle_crewmate_input visit input d)
  unfolding handle_crewmate_input handle_crewmate_input_text
  handle_crewmate_input-Bounded input d =
      search (within_rules, handle_crewmate_input_command-Bounded) depth 30 fits 5000

  -- A message of the crew makes the ship deck send at most three messages, and makes the map of the
  -- clients grow by at most one entry, and only if the client whom the message names was not there.
  -- Whether the deck has an entry for any other client is as before, so that the new entry is that
  -- of the client whom the message names.
  pub crew_input_bounded :
      (input : Message) (crew_id other : ClientId) (d d' : Deck) (out : List Sent)
      → other ≢ crew_id
      → frame input 1 ≡ ok crew_id
      → handle_crewmate_input visit input d ≡ ok (d', out)
      → (length d'.client_map ≤ (
          if contains crew_id d.client_map then length d.client_map else length d.client_map + 1))
        × (length out ≤ 3)
        × (contains other d'.client_map ≡ contains other d.client_map)
  crew_input_bounded input crew_id other d d' out differs named e =
      let (clients, messages) = (handle_crewmate_input-Bounded input d).at d' out e crew_id named in
      let others : (sender : ClientId) → frame input 1 ≡ ok sender → KnownIf other sender d =
        λ sender at same. absurd (differs (sym same ∙ same_sender input sender crew_id at named)) in
      (clients, messages, ((crew-Steady other d input others visit).at d' out e).keys)
