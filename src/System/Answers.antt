-- ===== src/System/Answers.antt =====
-- What the ship deck (src/server/Shipdeck.cpp) answers the crew can be read by their clients
-- (src/client/Client.cpp).
use pirate_servers.Base.{
  ℕ, ◌+◌, ◌<◌, String, ◌≡◌, refl, subst, ap, false≢true, Bool-cases, inl, inr, some, if◌then◌else◌,
  Bool, true, false, ◌&&◌, ◌==◌, not, List, [], ◌∷◌, length, arith,
}
use pirate_servers.Base.Map.{Map, contains, index, insert}
use pirate_servers.Base.Outcome.{ok, is_ok, ok_injective}
use pirate_servers.Base.Word.{u64_mod}
use pirate_servers.Wire.{Message}
use pirate_servers.Wire.Spans.{subspan_rest}
use pirate_servers.Defines.{
  zmq_info, no_cabin, set_offline, set_crew_id, set_server_id, client_info, ClientId, ServerId,
  CabinInfo,
}
use pirate_servers.Deck.{
  Deck, client_at, touch_client, touch_name, cabin_named, Sent, to_server, to_cabins, to_control,
}
use pirate_servers.Deck.Move.{modify_client, change_player_cabins}
use pirate_servers.Deck.Crew.{
  leave, join, show, ping, showall, all_infos, quit, login, handle_crewmate_input,
  handle_crewmate_input_command, handle_crewmate_input_text,
}
use pirate_servers.Deck.Keeps.{Gives, keeps_rules}
use pirate_servers.Client.{Client}
use pirate_servers.Client.Ship.{handle_ship_input, handle_ship_input_info}
use pirate_servers.Client.Tasks.{core_step, log_in}

-- A message that the core does not take for one of the user's.
abbrev pub from_server : Message → Bool
from_server [] = true
from_server (sender ∷ frames) = not (sender == "CLIENT")

-- Whether a message of the crew is the login of a client that the deck does not know.
abbrev pub first_login : Message → Deck → Bool
first_login (s_id ∷ crew_id ∷ sender ∷ message_type ∷ frames) d =
    message_type == "LOGIN" && not (contains crew_id d.client_map)
first_login _ d = false

-- Whether a client handles what the server passes on to it, and as the server's: the frames behind the
-- server's and the client's identities. The answer to a first login is read by the constructor, any
-- other by the core. What is sent to cabins does not concern the client.
abbrev pub readable : Bool → ℕ → (ℕ → Bool) → Client → Sent → Bool
readable first n sends c (to_server (s_id ∷ crew_id ∷ m)) =
    (if first
      then is_ok (log_in c.username c.password c.server_addr (some n) m)
      else is_ok (core_step sends m c))
    && from_server m
readable first n sends c (to_server _) = false
readable first n sends c (to_cabins m) = true
readable first n sends c (to_control m) = true

abbrev pub all_readable : Bool → ℕ → (ℕ → Bool) → Client → List Sent → Bool
all_readable first n sends c [] = true
all_readable first n sends c (s ∷ out) =
    readable first n sends c s && all_readable first n sends c out

module _ (n : ℕ) (sends : ℕ → Bool) (c : Client) where
  info_readable :
      (texts : Message)
      → length texts + 2 < u64_mod
      → is_ok (core_step sends ("SHIP" ∷ "INFO" ∷ texts) c) ≡ true
  unfolding core_step handle_ship_input handle_ship_input_info
  info_readable texts fits = ground (arith, subspan_rest ("SHIP" ∷ "INFO" ∷ texts) 2)

  ack_readable : is_ok (core_step sends ("SHIP" ∷ "ACK" ∷ []) c) ≡ true
  unfolding core_step handle_ship_input
  ack_readable = refl

  change_readable :
      (first : Bool) (crew_id cab_id : String) (d : Deck)
      → all_readable first n sends c (change_player_cabins crew_id cab_id d).1 ≡ true
  unfolding change_player_cabins
  change_readable first crew_id cab_id d = ground arith

  module _ (visit : Map CabinInfo → Map CabinInfo) (d : Deck)
      (fits : length (all_infos (visit d.cabin_id_to_info)) + 2 < u64_mod) where
    abbrev Readable : Deck → List Sent → Type 0
    Readable d' out = all_readable false n sends c out ≡ true

    leave_readable : (crew_id : ClientId) → all_readable false n sends c (leave crew_id d).1 ≡ true
    unfolding leave
    leave_readable crew_id = ground (
      arith,
      change_readable false crew_id (cabin_named d.default_cabin d)
          (touch_client crew_id (touch_name d.default_cabin d)),
    )

    join_readable :
        (crew_id : ClientId) (name : String)
        → all_readable false n sends c (join crew_id name d).1 ≡ true
    unfolding join
    join_readable crew_id name = ground (
      arith,
      change_readable false crew_id (cabin_named name d) (touch_client crew_id (touch_name name d)),
    )

    info_sent_readable :
        (s_id : ServerId) (crew_id : ClientId) (texts : Message)
        → length texts + 2 < u64_mod
        → all_readable false n sends c (to_server (s_id ∷ crew_id ∷ "SHIP" ∷ "INFO" ∷ texts) ∷ [])
          ≡ true
    info_sent_readable s_id crew_id texts h = ground (arith, info_readable texts h)

    show_readable :
        (s_id : ServerId) (crew_id : ClientId)
        → all_readable false n sends c (show s_id crew_id d).1 ≡ true
    unfolding show zmq_info
    show_readable s_id crew_id = ground (
      arith,
      info_readable (zmq_info (index (client_at crew_id d).curr_cabin no_cabin d.cabin_id_to_info)),
    )

    showall_readable :
        (s_id : ServerId) (crew_id : ClientId)
        → all_readable false n sends c (showall visit s_id crew_id d).1 ≡ true
    unfolding showall
    showall_readable s_id crew_id =
        info_sent_readable s_id crew_id (all_infos (visit d.cabin_id_to_info)) fits

    ping_readable :
        (s_id : ServerId) (crew_id : ClientId)
        → all_readable false n sends c (ping s_id crew_id d).1 ≡ true
    unfolding ping
    ping_readable s_id crew_id = ground (arith, ack_readable)

    quit_readable : (crew_id : ClientId) → all_readable false n sends c (quit crew_id d).1 ≡ true
    unfolding quit
    quit_readable crew_id = change_readable false crew_id "" (modify_client crew_id set_offline d)

    login_readable :
        (first : Bool) (s_id : ServerId) (crew_id : ClientId) (username password : String)
        → all_readable first n sends c (login visit s_id crew_id username password d).1 ≡ true
    unfolding login log_in
    login_readable first s_id crew_id username password = ground (
      arith,
      ack_readable,
      change_readable first crew_id (cabin_named d.default_cabin d) (
          touch_name d.default_cabin (record d {
            client_map =
                insert crew_id
                  (set_crew_id crew_id (set_server_id s_id (client_info username password)))
                  d.client_map;
            crew_name_to_id = insert username crew_id d.crew_name_to_id;
          })),
    )

    ruleset readable_rules = (
      keeps_rules, leave_readable, join_readable, show_readable, showall_readable, ping_readable,
      quit_readable, login_readable,
    )

    handle_crewmate_input-Readable :
        (input : Message) → Gives Readable (handle_crewmate_input visit input d)
    unfolding handle_crewmate_input handle_crewmate_input_command handle_crewmate_input_text
    handle_crewmate_input-Readable input = search readable_rules depth 30

    first_login-readable :
        (input : Message) (d' : Deck) (out : List Sent)
        → first_login input d ≡ true
        → handle_crewmate_input visit input d ≡ ok (d', out)
        → all_readable true n sends c out ≡ true
    unfolding handle_crewmate_input
    first_login-readable [] d' out h e = cc
    first_login-readable (s_id ∷ []) d' out h e = cc
    first_login-readable (s_id ∷ crew_id ∷ []) d' out h e = cc
    first_login-readable (s_id ∷ crew_id ∷ sender ∷ []) d' out h e = cc
    first_login-readable (s_id ∷ crew_id ∷ sender ∷ kind ∷ []) d' out h e =
        absurd (false≢true (ap is_ok (rw h at e)))
    first_login-readable (s_id ∷ crew_id ∷ sender ∷ kind ∷ username ∷ []) d' out h e =
        absurd (false≢true (ap is_ok (rw h at e)))
    first_login-readable (s_id ∷ crew_id ∷ sender ∷ kind ∷ username ∷ password ∷ rest) d' out h e =
        subst (λ (x : Deck × List Sent). all_readable true n sends c x.1 ≡ true)
          (ok_injective (rw h at e)) (login_readable true s_id crew_id username password)

    -- Whatever a member of the crew sends, each message that the ship deck sends to a client in
    -- answer is one that the client handles without a fault and does not take for one of its user's:
    -- its constructor, if it is the answer to the login of a client that the deck does not know, and
    -- its core otherwise. The infos of all cabins have fewer than 2^64 - 2 frames.
    pub crew_answers_readable :
        (input : Message) (d' : Deck) (out : List Sent)
        → handle_crewmate_input visit input d ≡ ok (d', out)
        → all_readable (first_login input d) n sends c out ≡ true
    crew_answers_readable input d' out e = elim (Bool-cases (first_login input d)) [
      | inl first ↦ rw first (first_login-readable input d' out first e)
      | inr other ↦ rw other ((handle_crewmate_input-Readable input).at d' out e)
    ]
