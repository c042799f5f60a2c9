-- ===== src/System/Follow/Crew.antt =====
-- A message of the crew (src/server/Shipdeck.cpp) keeps the cabins' histories in step with the
-- clients.
use pirate_servers.Base.{
  String, ◌≡◌, refl, ap, ◌∙◌, true, false, eq_iff, ◌==◌, ◌&&◌, not, List, [], ◌∷◌, ◌++◌, arith,
}
use pirate_servers.Base.Map.{Map, contains}
use pirate_servers.Base.Outcome.{ok}
use pirate_servers.Wire.{Message, frame}
use pirate_servers.Defines.{ClientId, CabinId, CabinInfo}
use pirate_servers.Deck.{Deck, Sent, to_cabins, to_server, touch_client}
use pirate_servers.Deck.Crew.{
  ping, showall, login, handle_crewmate_input, handle_crewmate_input_command,
  handle_crewmate_input_text,
}
use pirate_servers.Deck.Keeps.{Gives, keeps_rules}
use pirate_servers.Lobby.Refinement.{present, present_after}
use pirate_servers.System.Follow.{received, IsFollowed}
use pirate_servers.System.Follow.Handlers.{
  IsQuiet, touch_client-IsFollowed, still-IsFollowed, silent-IsQuiet, to_server-IsQuiet,
  leave-IsFollowed, join-IsFollowed, show-IsFollowed, quit-IsFollowed,
}
use pirate_servers.System.Follow.Login.{IsFree, login-IsFollowed}

-- A first login is by a name that no other client has.
abbrev pub IsNamed : Message → Deck → Type 0
IsNamed input d =
    (crew_id username : String)
    → frame input 1 ≡ ok crew_id
    → frame input 3 ≡ ok "LOGIN"
    → frame input 4 ≡ ok username
    → contains crew_id d.client_map ≡ false
    → IsFree username d

text-IsQuiet :
    (c : CabinId) (name text : String) → IsQuiet (to_cabins (c ∷ "TEXT" ∷ name ∷ text ∷ []) ∷ [])
unfolding present present_after received
text-IsQuiet c name text = record {
  unchanged = λ u c' there. ground arith;
  pieces = λ c'. ground arith;
}

module _ (visit : Map CabinInfo → Map CabinInfo) (d : Deck) (total : List Sent)
    (h : IsFollowed d total) where
  abbrev Goes : Deck → List Sent → Type 0
  Goes d' out = IsFollowed d' (total ++ out)

  silent-IsFollowed : IsFollowed d (total ++ [])
  silent-IsFollowed = still-IsFollowed d d total [] h (λ k. refl) (λ u _. refl) silent-IsQuiet

  answered-IsFollowed : (m : Message) → IsFollowed d (total ++ (to_server m ∷ []))
  answered-IsFollowed m =
      still-IsFollowed d d total (to_server m ∷ []) h (λ k. refl) (λ u _. refl)
        (to_server-IsQuiet m)

  texted-IsFollowed :
      (crew_id : ClientId) (c : CabinId) (name text : String)
      → IsFollowed
          (touch_client crew_id d)
          (total ++ (to_cabins (c ∷ "TEXT" ∷ name ∷ text ∷ []) ∷ []))
  texted-IsFollowed crew_id c name text =
      touch_client-IsFollowed crew_id d total h _ (text-IsQuiet c name text)

  ruleset follow_rules = (
    keeps_rules, leave-IsFollowed, join-IsFollowed, show-IsFollowed, quit-IsFollowed,
    silent-IsFollowed, answered-IsFollowed, texted-IsFollowed,
  )

  command-Gives : (input : Message) → Gives Goes (handle_crewmate_input_command visit input d)
  unfolding handle_crewmate_input_command ping showall
  command-Gives input = search follow_rules depth 25

  text-Gives : (input : Message) → Gives Goes (handle_crewmate_input_text visit input d)
  unfolding handle_crewmate_input_text
  text-Gives input = search follow_rules depth 25

  named_login-IsFollowed :
      (input : Message)
      → IsNamed input d
      → (message_type s_id crew_id username password : String) → frame input 3 ≡ ok message_type
      → frame input 1 ≡ ok crew_id
      → (message_type == "LOGIN" && not (contains crew_id d.client_map)) ≡ true
      → frame input 4 ≡ ok username
      → let r = login visit s_id crew_id username password d in IsFollowed r.0 (total ++ r.1)
  named_login-IsFollowed input named message_type s_id crew_id username password at_3 at_1 first
        at_4 =
      let login_type : message_type ≡ "LOGIN" = (eq_iff message_type "LOGIN").0 (ground arith) in
      let new : contains crew_id d.client_map ≡ false = ground arith in
      login-IsFollowed visit s_id crew_id username password d total h new
        (named crew_id username at_1 (at_3 ∙ ap ok login_type) at_4 new)

  pub crew-Gives :
      (input : Message) → IsNamed input d → Gives Goes (handle_crewmate_input visit input d)
  unfolding handle_crewmate_input
  crew-Gives input named =
      search (follow_rules, named_login-IsFollowed input named, command-Gives, text-Gives) depth 25
