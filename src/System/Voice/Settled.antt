-- ===== src/System/Voice/Settled.antt =====
-- That the ship deck (src/server/Shipdeck.cpp) knows a client by the name of its user from the first
-- message on that comes from it.
use pirate_servers.Base.{
  String, ◌≡◌, refl, sym, ap, ◌∙◌, String-cases, inl, inr, eq_iff, ◌==◌, ◌&&◌, not, true, false,
  false≢true, List, arith,
}
use pirate_servers.Base.Map.{Map, contains, insert, lookup-insert_self, is_some}
use pirate_servers.Base.Outcome.{ok}
use pirate_servers.Wire.{Message, frame}
use pirate_servers.Defines.{ClientId, ServerId, CabinInfo, client_info, set_crew_id, set_server_id}
use pirate_servers.Deck.{Deck, Sent, touch_client}
use pirate_servers.Deck.Crew.{
  login, handle_crewmate_input, handle_crewmate_input_command, handle_crewmate_input_text,
}
use pirate_servers.Deck.Keeps.{Gives, keeps_rules}
use pirate_servers.Deck.Workers.{dispatch_server}
use pirate_servers.System.Follow.{name_of}
use pirate_servers.System.Voice.Handlers.{login_names, command-IsMute, touch_names}
use pirate_servers.Deck.Known.{IsSteady, KnownIf, still-IsSteady, change-IsSteady}
use pirate_servers.Deck.Known.Crew.{crew-Steady}

-- A client that is known keeps its name.
module _ (c_id : ClientId) (visit : Map CabinInfo → Map CabinInfo) (d : Deck)
    (input : Message) where
  abbrev SameName : Deck → List Sent → Type 0
  SameName d' out = name_of c_id d' ≡ name_of c_id d

  module _ (known : contains c_id d.client_map ≡ true) where
    login-SameName :
        (message_type s_id crew_id username password : String)
        → (message_type == "LOGIN" && not (contains crew_id d.client_map)) ≡ true
        → name_of c_id (login visit s_id crew_id username password d).0 ≡ name_of c_id d
    login-SameName message_type s_id crew_id username password first =
        login_names visit s_id crew_id username password d c_id ∙ elim (String-cases crew_id c_id) [
          | inl same ↦ absurd (already same)
          | inr other ↦ ground (arith, eq_iff crew_id c_id)
        ]
      where
        already : crew_id ≡ c_id → ⊥
        already same =
            let new : contains crew_id d.client_map ≡ false = ground arith in
            false≢true (sym new ∙ ap (λ (k : ClientId). contains k d.client_map) same ∙ known)

    command-SameName : Gives SameName (handle_crewmate_input_command visit input d)
    command-SameName = record {
      at = λ d' out e. ((command-IsMute d visit input).at d' out e).names c_id;
    }

    touched-SameName : (crew_id : ClientId) → name_of c_id (touch_client crew_id d) ≡ name_of c_id d
    touched-SameName crew_id = touch_names d crew_id d refl c_id

    text-SameName : Gives SameName (handle_crewmate_input_text visit input d)
    unfolding handle_crewmate_input_text
    text-SameName = search (keeps_rules, touched-SameName) depth 20

    crew-SameName : Gives SameName (handle_crewmate_input visit input d)
    unfolding handle_crewmate_input
    crew-SameName = search (keeps_rules, login-SameName, command-SameName, text-SameName) depth 25

    pub message-SameName : Gives SameName (dispatch_server visit input d)
    unfolding dispatch_server
    message-SameName = search (keeps_rules, crew-SameName) depth 25

  abbrev Steady : Deck → List Sent → Type 0
  Steady d' out = IsSteady c_id d d'

  pub message-Steady :
      ((crew_id : ClientId) → frame input 1 ≡ ok crew_id → KnownIf c_id crew_id d)
      → Gives Steady (dispatch_server visit input d)
  unfolding dispatch_server
  message-Steady known =
      let crew = crew-Steady c_id d input known visit in
      let still = still-IsSteady c_id d in search (keeps_rules, crew, still) depth 25

-- Behind a first login the client is known.
pub login_known :
    (visit : Map CabinInfo → Map CabinInfo) (s_id : ServerId) (crew_id : ClientId)
    (username password : String) (d : Deck)
    → contains crew_id (login visit s_id crew_id username password d).0.client_map ≡ true
unfolding login
login_known visit s_id crew_id username password d =
    let entry = set_crew_id crew_id (set_server_id s_id (client_info username password)) in
    let entered : contains crew_id (insert crew_id entry d.client_map) ≡ true =
      ap is_some (lookup-insert_self crew_id entry d.client_map) in
    (change-IsSteady crew_id crew_id _ _ (λ same. entered)).keys ∙ entered
