-- ===== src/Deck/Known/Crew.antt =====
-- Each message of the crew (src/server/Shipdeck.cpp) leaves the ship deck knowing a client as before, if
-- the sender is another or known.
use pirate_servers.Base.{
  String, ◌≡◌, ◌≢◌, refl, sym, ap, ◌∙◌, inl, inr, ◌==◌, ◌&&◌, not, Bool-cases, true, false, List,
  [], ◌∷◌, arith,
}
use pirate_servers.Base.Map.{Map, or_default, contains, index, insert, lookup-insert}
use pirate_servers.Base.Outcome.{ok}
use pirate_servers.Wire.{Message, frame}
use pirate_servers.Defines.{
  ClientId, ServerId, CabinInfo, set_offline, client_info, set_crew_id, set_server_id,
}
use pirate_servers.Deck.{Deck, Sent, client_at, touch_client, touch_name}
use pirate_servers.Deck.Crew.{
  leave, join, show, ping, showall, quit, login, handle_crewmate_input,
  handle_crewmate_input_command, handle_crewmate_input_text,
}
use pirate_servers.Deck.Keeps.{Gives, keeps_rules}
use pirate_servers.Deck.Move.{modify_client}
use pirate_servers.Deck.Known.{
  IsSteady, KnownIf, still-IsSteady, then-IsSteady, touch-IsSteady, change-IsSteady,
  either-IsSteady, looked_up-IsSteady, looked_up_change-IsSteady, set_keys,
}

index-insert_same :
    (name username crew_id : String) (names : Map ClientId)
    → (username == name) ≡ true
    → index name "" (insert username crew_id names) ≡ crew_id
index-insert_same name username crew_id names same =
    ap (or_default "") (lookup-insert username name crew_id names) ∙ rw same refl

index-insert_other :
    (name username crew_id : String) (names : Map ClientId)
    → (username == name) ≡ false
    → index name "" (insert username crew_id names) ≡ index name "" names
index-insert_other name username crew_id names another =
    ap (or_default "") (lookup-insert username name crew_id names) ∙ rw another refl

-- The handlers of the crew's messages. `known` is about the sender.
module _ (c_id : ClientId) (d : Deck) (input : Message)
    (known : (crew_id : ClientId) → frame input 1 ≡ ok crew_id → KnownIf c_id crew_id d) where
  abbrev Steady : Deck → List Sent → Type 0
  Steady d' out = IsSteady c_id d d'

  leave-IsSteady :
      (crew_id : ClientId) → frame input 1 ≡ ok crew_id → IsSteady c_id d (leave crew_id d).0
  unfolding leave
  leave-IsSteady crew_id at =
      either-IsSteady c_id _ (touch_client crew_id (touch_name d.default_cabin d), []) _
        (looked_up-IsSteady c_id crew_id d.default_cabin d (known crew_id at))
        (looked_up_change-IsSteady c_id crew_id _ d.default_cabin d (known crew_id at))

  join-IsSteady :
      (crew_id : ClientId) (cabin_name : String)
      → frame input 1 ≡ ok crew_id
      → IsSteady c_id d (join crew_id cabin_name d).0
  unfolding join
  join-IsSteady crew_id cabin_name at =
      either-IsSteady c_id _ (touch_client crew_id (touch_name cabin_name d), []) _
        (looked_up-IsSteady c_id crew_id cabin_name d (known crew_id at))
        (looked_up_change-IsSteady c_id crew_id _ cabin_name d (known crew_id at))

  show-IsSteady :
      (s_id : ServerId) (crew_id : ClientId)
      → frame input 1 ≡ ok crew_id
      → IsSteady c_id d (show s_id crew_id d).0
  unfolding show
  show-IsSteady s_id crew_id at =
      either-IsSteady c_id _ (touch_client crew_id d, _ ∷ []) (touch_client crew_id d, [])
        (touch-IsSteady c_id crew_id d (known crew_id at))
        (touch-IsSteady c_id crew_id d (known crew_id at))

  quit-IsSteady :
      (crew_id : ClientId) → frame input 1 ≡ ok crew_id → IsSteady c_id d (quit crew_id d).0
  unfolding quit
  quit-IsSteady crew_id at =
      let offline =
        set_keys c_id crew_id (set_offline (client_at crew_id d)) d.client_map (known crew_id at) in
      then-IsSteady c_id (record { keys = offline; ids = λ name e. e })
        (change-IsSteady c_id crew_id "" (modify_client crew_id set_offline d)
          (λ same. offline ∙ known crew_id at same))

  sender-IsSteady :
      (crew_id : ClientId) → frame input 1 ≡ ok crew_id → IsSteady c_id d (touch_client crew_id d)
  sender-IsSteady crew_id at = touch-IsSteady c_id crew_id d (known crew_id at)

  older :
      (name username crew_id : String) (names : Map ClientId)
      → crew_id ≢ c_id
      → index name "" (insert username crew_id names) ≡ c_id
      → index name "" names ≡ c_id
  older name username crew_id names other e = elim (Bool-cases (username == name)) [
    | inl same ↦ absurd (other (sym (index-insert_same name username crew_id names same) ∙ e))
    | inr another ↦ sym (index-insert_other name username crew_id names another) ∙ e
  ]

  -- A first login of another client.
  login-IsSteady :
      (visit : Map CabinInfo → Map CabinInfo) (message_type s_id crew_id username password : String)
      → frame input 1 ≡ ok crew_id
      → (message_type == "LOGIN" && not (contains crew_id d.client_map)) ≡ true
      → IsSteady c_id d (login visit s_id crew_id username password d).0
  unfolding login
  login-IsSteady visit message_type s_id crew_id username password at first =
      let other : crew_id ≢ c_id = λ same. ground (arith, known crew_id at same, same) in
      let entry = set_crew_id crew_id (set_server_id s_id (client_info username password)) in
      then-IsSteady c_id
        (record {
          keys = set_keys c_id crew_id entry d.client_map (λ same. absurd (other same));
          ids = λ name e. older name username crew_id d.crew_name_to_id other e;
        })
        (change-IsSteady c_id crew_id _ _ (λ same. absurd (other same)))

  command-Steady :
      (visit : Map CabinInfo → Map CabinInfo)
      → Gives Steady (handle_crewmate_input_command visit input d)
  unfolding handle_crewmate_input_command ping showall
  command-Steady visit =
      search
        (
          keeps_rules,
          leave-IsSteady,
          join-IsSteady,
          show-IsSteady,
          quit-IsSteady,
          still-IsSteady c_id,
        )
        depth 25

  text-Steady :
      (visit : Map CabinInfo → Map CabinInfo)
      → Gives Steady (handle_crewmate_input_text visit input d)
  unfolding handle_crewmate_input_text
  text-Steady visit = search (keeps_rules, sender-IsSteady) depth 25

  pub crew-Steady :
      (visit : Map CabinInfo → Map CabinInfo) → Gives Steady (handle_crewmate_input visit input d)
  unfolding handle_crewmate_input
  crew-Steady visit =
      search (keeps_rules, login-IsSteady, command-Steady, text-Steady, still-IsSteady c_id) depth
        25
