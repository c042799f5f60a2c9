-- ===== src/System/Speech.antt =====
-- What the crew says in a cabin, and what the ship deck (src/server/Shipdeck.cpp) tells the cabin of
-- it.
use pirate_servers.Base.{
  ◌≡◌, refl, ap, sym, ◌∙◌, String, Option, none, some, true, false, List, [], ◌∷◌, ◌++◌, ◌==◌, ◌&&◌,
  not, if◌then◌else◌, arith, eq_through, Bool-cases, false≢true, inl, inr,
}
use mathlib.Core.List.{append_assoc}
use pirate_servers.Base.Map.{Map, contains}
use pirate_servers.Base.Outcome.{ok}
use pirate_servers.Wire.{Message}
use pirate_servers.Defines.{CabinId, ClientId, ServerId, CabinInfo, set_offline}
use pirate_servers.Deck.{
  Deck, Sent, to_cabins, to_server, client_at, touch_client, touch_name, cabin_named,
}
use pirate_servers.Deck.Move.{change_player_cabins, modify_client}
use pirate_servers.Deck.Crew.{
  leave, join, show, ping, showall, quit, login, handle_crewmate_input,
  handle_crewmate_input_command, handle_crewmate_input_text,
}
use pirate_servers.Deck.Services.{
  register, forward, handle_services_cabins_input, handle_services_ships_input,
}
use pirate_servers.Deck.Keeps.{Gives, Gives-ok, keeps_rules}
use pirate_servers.Lobby.Order.{Said, text_of}
use pirate_servers.System.Follow.{received}

-- What the texts of a list of messages say.
unfoldable pub texts : List Message → List Said
texts [] = []
texts (m ∷ history) = text_of m ++ texts history

pub texts-append :
    (earlier later : List Message) → texts (earlier ++ later) ≡ texts earlier ++ texts later
unfolding texts
texts-append [] later = refl
texts-append (m ∷ earlier) later =
    ap (◌++◌ (text_of m)) (texts-append earlier later)
    ∙ sym (append_assoc (text_of m) (texts earlier) (texts later))

-- What a message of the crew says in a cabin: a text of a client that is known, whose cabin it is.
unfoldable pub says : CabinId → Message → Deck → List Said
says c (s_id ∷ crew_id ∷ sender ∷ kind ∷ text ∷ _) d =
    if (kind == "TEXT" && contains crew_id d.client_map) && ((client_at crew_id d).curr_cabin == c)
    then ((client_at crew_id d).c_username, text) ∷ []
    else []
says c _ d = []

module _ (c : CabinId) where
  abbrev Silent : Deck → List Sent → Type 0
  Silent d' out = texts (received c out) ≡ []

  change_silent :
      (crew_id cab_id : String) (d : Deck)
      → texts (received c (change_player_cabins crew_id cab_id d).1) ≡ []
  unfolding change_player_cabins texts received text_of
  change_silent crew_id cab_id d = ground arith

  module _ (d : Deck) where
    leave_silent : (crew_id : ClientId) → texts (received c (leave crew_id d).1) ≡ []
    unfolding leave texts received
    leave_silent crew_id = ground (
      arith,
      change_silent crew_id (cabin_named d.default_cabin d)
          (touch_client crew_id (touch_name d.default_cabin d)),
    )

    join_silent :
        (crew_id : ClientId) (name : String) → texts (received c (join crew_id name d).1) ≡ []
    unfolding join texts received
    join_silent crew_id name = ground (
      arith,
      change_silent crew_id (cabin_named name d) (touch_client crew_id (touch_name name d)),
    )

    show_silent :
        (s_id : ServerId) (crew_id : ClientId) → texts (received c (show s_id crew_id d).1) ≡ []
    unfolding show texts received
    show_silent s_id crew_id = ground arith

    quit_silent : (crew_id : ClientId) → texts (received c (quit crew_id d).1) ≡ []
    unfolding quit
    quit_silent crew_id = change_silent crew_id "" (modify_client crew_id set_offline d)

    nothing_silent : texts (received c []) ≡ []
    unfolding texts received
    nothing_silent = refl

    answer_silent : (m : Message) → texts (received c (to_server m ∷ [])) ≡ []
    unfolding texts received
    answer_silent m = refl

    reply_silent :
        (id g_id : CabinId)
        → texts (received c (to_cabins (id ∷ "SHIP" ∷ "SUCCESS" ∷ g_id ∷ []) ∷ [])) ≡ []
    unfolding texts received text_of
    reply_silent id g_id = ground arith

    ruleset silent_rules = (
      keeps_rules, leave_silent, join_silent, show_silent, quit_silent, nothing_silent,
      answer_silent, reply_silent,
    )

    register-Silent :
        (input : Message) (next : Option Message) → Gives Silent (register input next d)
    unfolding register
    register-Silent input none = search silent_rules depth 25
    register-Silent input (some reply) = search silent_rules depth 25

    forward-Silent : (input : Message) → Gives Silent (forward input d)
    unfolding forward
    forward-Silent input = search silent_rules depth 25

    pub cabins-Silent :
        (input : Message) (next : Option Message)
        → Gives Silent (handle_services_cabins_input input next d)
    unfolding handle_services_cabins_input
    cabins-Silent input next = search (silent_rules, register-Silent, forward-Silent) depth 25

    pub ships-Silent : (input : Message) → Gives Silent (handle_services_ships_input input d)
    unfolding handle_services_ships_input
    ships-Silent input = search silent_rules depth 25

    module _ (visit : Map CabinInfo → Map CabinInfo) where
      command-Silent :
          (input : Message) → Gives Silent (handle_crewmate_input_command visit input d)
      unfolding handle_crewmate_input_command ping showall
      command-Silent input = search silent_rules depth 30

      login_silent :
          (s_id : ServerId) (crew_id : ClientId) (username password : String)
          → texts (received c (login visit s_id crew_id username password d).1) ≡ []
      unfolding login texts received
      login_silent s_id crew_id username password = change_silent _ _ _

      module _ (s_id : ServerId) (crew_id : ClientId) (sender kind text : String)
          (rest : Message) where
        abbrev spoken : Message
        spoken = s_id ∷ crew_id ∷ sender ∷ kind ∷ text ∷ rest

        abbrev passed_on : Sent
        passed_on =
            let client = client_at crew_id d in
            to_cabins (client.curr_cabin ∷ "TEXT" ∷ client.c_username ∷ text ∷ [])

        says_nothing :
            (kind == "TEXT" && contains crew_id d.client_map) ≡ false → says c spoken d ≡ []
        unfolding says
        says_nothing h = rw h refl

        other-Silent :
            (kind == "TEXT" && contains crew_id d.client_map) ≡ false
            → Gives Silent (handle_crewmate_input visit spoken d)
        unfolding handle_crewmate_input
        other-Silent h =
            let no_text : kind == "TEXT" ≡ true
                → not (contains crew_id d.client_map) ≡ false
                → Gives Silent (handle_crewmate_input_text visit spoken d) =
              λ e g. absurd (false≢true (ground arith)) in
            search (silent_rules, command-Silent, login_silent, no_text) depth 25

        sent_on :
            (kind == "TEXT" && contains crew_id d.client_map) ≡ true
            → handle_crewmate_input visit spoken d ≡ ok (touch_client crew_id d, passed_on ∷ [])
        unfolding handle_crewmate_input handle_crewmate_input_text
        sent_on h = ground (arith, eq_through kind "TEXT" "LOGIN", eq_through kind "TEXT" "COMMAND")

        text_said :
            (kind == "TEXT" && contains crew_id d.client_map) ≡ true
            → Gives
                (λ d' out. texts (received c out) ≡ says c spoken d)
                (handle_crewmate_input visit spoken d)
        unfolding says texts received text_of
        text_said h =
            rw (sent_on h) (Gives-ok (touch_client crew_id d, passed_on ∷ []) (ground arith))

      -- The texts that a message of the crew makes the deck send to a cabin are what it says there.
      pub crew_says :
          (input : Message) (d' : Deck) (out : List Sent)
          → handle_crewmate_input visit input d ≡ ok (d', out)
          → texts (received c out) ≡ says c input d
      unfolding handle_crewmate_input handle_crewmate_input_command handle_crewmate_input_text
      crew_says [] d' out e = cc
      crew_says (s_id ∷ []) d' out e = cc
      crew_says (s_id ∷ crew_id ∷ []) d' out e = cc
      crew_says (s_id ∷ crew_id ∷ sender ∷ []) d' out e = cc
      crew_says (s_id ∷ crew_id ∷ sender ∷ kind ∷ []) d' out e =
          unfold texts received says in ground arith
      crew_says (s_id ∷ crew_id ∷ sender ∷ kind ∷ text ∷ rest) d' out e =
          elim (Bool-cases (kind == "TEXT" && contains crew_id d.client_map)) [
            | inl said ↦ (text_said s_id crew_id sender kind text rest said).at d' out e
            | inr other ↦
                (other-Silent s_id crew_id sender kind text rest other).at d' out e
                ∙ sym (says_nothing s_id crew_id sender kind text rest other)
          ]
