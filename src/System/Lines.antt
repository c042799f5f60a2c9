-- ===== src/System/Lines.antt =====
-- What the client (src/client/Client.cpp) sends for a line of its user can be read by the ship deck
-- (src/server/Shipdeck.cpp).
use pirate_servers.Base.{
  ℕ, zero, suc, ◌+◌, String, ◌≡◌, refl, Bool, true, false, Option, none, some, ◌&&◌, ◌==◌, eq_iff,
  false≢true, sym, ap, ◌∙◌, List, [], ◌∷◌, arith, Bool-cases, ◌⊎◌, inl, inr,
}
use pirate_servers.Base.Map.{Map}
use pirate_servers.Base.Outcome.{connected, bind-eq-ok, ok, is_ok, ◌>>=◌}
use pirate_servers.Base.Text.{has_prefix, substr, substr_from}
use pirate_servers.Wire.{Message}
use pirate_servers.Defines.{ClientId, ServerId, CabinInfo}
use pirate_servers.Deck.{Deck}
use pirate_servers.Deck.Crew.{
  handle_crewmate_input, handle_crewmate_input_command, handle_crewmate_input_text,
}
use pirate_servers.Deck.Workers.{dispatch_server}
use pirate_servers.Client.{Client, Effect, sent, printed}
use pirate_servers.Client.Tasks.{log_in, connect, input_message, core_step}
use pirate_servers.Client.User.{
  handle_user_input, handle_user_input_command, handle_user_input_text, attempt, send_once,
}

-- The first message of a client is its login.
log_in-sent :
    (username password server_addr : String) (res : Option ℕ) (reqs : Message) (c : Client)
    (first : List Effect)
    → log_in username password server_addr res reqs ≡ ok (c, first)
    → first ≡ sent ("CREW" ∷ "LOGIN" ∷ username ∷ password ∷ []) ∷ []
unfolding log_in
log_in-sent username password server_addr none reqs c first e = cc
log_in-sent username password server_addr (some n) reqs c first e = ground arith

pub connect-sent :
    (connects : String → Bool) (username password server_addr : String) (res : Option ℕ)
    (reqs : Message) (c : Client) (first : List Effect)
    → connect connects username password server_addr res reqs ≡ ok (c, first)
    → first ≡ sent ("CREW" ∷ "LOGIN" ∷ username ∷ password ∷ []) ∷ []
unfolding connect
connect-sent connects username password server_addr res reqs c first e =
    let (addr, _, logged_in) = bind-eq-ok (connected connects server_addr) _ e in
    log_in-sent username password addr res reqs c first logged_in

-- Whether the ship deck handles what the client sends, behind the identities that the sockets add.
module _ (visit : Map CabinInfo → Map CabinInfo) (s_id : ServerId) (crew_id : ClientId)
    (d : Deck) where
  abbrev pub accepted : Message → Bool
  accepted m = is_ok (dispatch_server visit (s_id ∷ crew_id ∷ m) d)

  abbrev pub all_accepted : List Effect → Bool
  all_accepted [] = true
  all_accepted (printed s ∷ effects) = all_accepted effects
  all_accepted (sent m ∷ effects) = accepted m && all_accepted effects

  text_accepted : (text : String) → accepted ("CREW" ∷ "TEXT" ∷ text ∷ []) ≡ true
  unfolding dispatch_server handle_crewmate_input handle_crewmate_input_text
  text_accepted text = ground arith

  join_accepted :
      (name argument : String) → accepted ("CREW" ∷ "COMMAND" ∷ name ∷ argument ∷ []) ≡ true
  unfolding dispatch_server handle_crewmate_input handle_crewmate_input_command
  join_accepted name argument = ground arith

  command_accepted :
      (command : String)
      → has_prefix "/join" command ≡ false
      → accepted ("CREW" ∷ "COMMAND" ∷ command ∷ []) ≡ true
  unfolding dispatch_server handle_crewmate_input handle_crewmate_input_command has_prefix
  command_accepted command h = elim (Bool-cases (command == "/join")) [
    | inl same ↦
        absurd (false≢true (sym h ∙ ap (has_prefix "/join") ((eq_iff command "/join").0 same)))
    | inr other ↦ ground arith
  ]

  attempt-accepted :
      (sends : ℕ → Bool) (left i : ℕ) (msg : Message)
      → accepted msg ≡ true
      → all_accepted (attempt sends left i msg).1 ≡ true
  unfolding attempt
  attempt-accepted sends zero i msg h = refl
  attempt-accepted sends (suc left) i msg h =
      ground (arith, attempt-accepted sends left (i + 1) msg h)

  quit_accepted :
      (command : String)
      → (command == "/quit") ≡ true
      → accepted ("CREW" ∷ "COMMAND" ∷ command ∷ []) ≡ true
  unfolding has_prefix
  quit_accepted command quits =
      command_accepted command (ap (has_prefix "/join") ((eq_iff command "/quit").0 quits))

  typed_join_accepted :
      (sends : ℕ → Bool) (c c' : Client) (command : String) (effects : List Effect)
      → (do
        name ← substr command 0 5
        argument ← substr_from command 6
        send_once sends ("CREW" ∷ "COMMAND" ∷ name ∷ argument ∷ []) c)
        ≡ ok (c', effects)
      → all_accepted effects ≡ true
  unfolding send_once
  typed_join_accepted sends c c' command effects e =
      let (name, _, rest) = bind-eq-ok (substr command 0 5) _ e in
      let (argument, _, last) = bind-eq-ok (substr_from command 6) _ rest in
      ground (arith, join_accepted name argument)

  command_effects_accepted :
      (sends : ℕ → Bool) (c c' : Client) (command : String) (effects : List Effect)
      → handle_user_input_command sends ("CLIENT" ∷ "COMMAND" ∷ command ∷ []) c ≡ ok (c', effects)
      → all_accepted effects ≡ true
  unfolding handle_user_input_command send_once
  command_effects_accepted sends c c' command effects e = elim (Bool-cases (command == "/quit")) [
    | inl quits ↦ ground (
      arith,
      quit_accepted command quits,
      attempt-accepted sends 10 0 ("CREW" ∷ "COMMAND" ∷ command ∷ []),
    )
    | inr stays ↦ elim (Bool-cases (has_prefix "/join" command)) [
      | inl joins ↦ typed_join_accepted sends c c' command effects (rw (stays, joins) at e)
      | inr other ↦ ground (arith, command_accepted command other)
    ]
  ]

  text_effects_accepted :
      (sends : ℕ → Bool) (c c' : Client) (text : String) (effects : List Effect)
      → handle_user_input_text sends ("CLIENT" ∷ "TEXT" ∷ text ∷ []) c ≡ ok (c', effects)
      → all_accepted effects ≡ true
  unfolding handle_user_input_text
  text_effects_accepted sends c c' text effects e =
      ground (arith, text_accepted text, attempt-accepted sends 10 0 ("CREW" ∷ "TEXT" ∷ text ∷ []))

  message_of_line :
      (input_str : String) (m : Message)
      → input_message input_str ≡ some m
      → (m ≡ "CLIENT" ∷ "COMMAND" ∷ input_str ∷ []) ⊎ (m ≡ "CLIENT" ∷ "TEXT" ∷ input_str ∷ [])
  unfolding input_message
  message_of_line input_str m e = elim (Bool-cases (has_prefix "/" input_str)) [
    | inl command ↦ inl (ground arith)
    | inr text ↦ inr (ground arith)
  ]

  login_accepted :
      (username password : String) → accepted ("CREW" ∷ "LOGIN" ∷ username ∷ password ∷ []) ≡ true
  unfolding dispatch_server handle_crewmate_input
  login_accepted username password = ground arith

  -- What the constructor of a client sends.
  pub connect_accepted :
      (connects : String → Bool) (username password server_addr : String) (res : Option ℕ)
      (reqs : Message) (c : Client) (first : List Effect)
      → connect connects username password server_addr res reqs ≡ ok (c, first)
      → all_accepted first ≡ true
  connect_accepted connects username password server_addr res reqs c first e =
      rw (connect-sent connects username password server_addr res reqs c first e)
        (ground (arith, login_accepted username password))

  -- Whatever line the user types, the ship deck handles without a fault what the client sends for
  -- it, where the client itself does not fault.
  pub lines_accepted :
      (sends : ℕ → Bool) (c c' : Client) (input_str : String) (m : Message) (effects : List Effect)
      → input_message input_str ≡ some m
      → core_step sends m c ≡ ok (c', effects)
      → all_accepted effects ≡ true
  unfolding core_step handle_user_input
  lines_accepted sends c c' input_str m effects e handled = elim (message_of_line input_str m e) [
    | inl command ↦ command_effects_accepted sends c c' input_str effects (rw command at handled)
    | inr text ↦ text_effects_accepted sends c c' input_str effects (rw text at handled)
  ]
