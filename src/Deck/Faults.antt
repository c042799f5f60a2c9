-- ===== src/Deck/Faults.antt =====
-- Which messages the listeners of the ship deck (src/server/Shipdeck.cpp) read past the end of: how
-- many frames each kind of message needs.
use pirate_servers.Base.{
  ℕ, ◌+◌, ◌<◌, String, ◌≡◌, refl, Bool, true, false, Option, none, some, List, [], ◌∷◌, ◌==◌, ◌&&◌,
  ◌||◌, not, ltb, length, arith, eq_through, if◌then◌else◌,
}
use pirate_servers.Base.Map.{Map, contains}
use pirate_servers.Base.Outcome.{Outcome, Fault, ok, err, out_of_range, ◌>>=◌}
use pirate_servers.Base.Word.{u64_mod}
use pirate_servers.Wire.{Message}
use pirate_servers.Wire.Spans.{subspan_rest}
use pirate_servers.Defines.{CabinInfo}
use pirate_servers.Deck.{Deck, Sent, to_cabins}
use pirate_servers.Deck.Crew.{
  handle_crewmate_input, handle_crewmate_input_command, handle_crewmate_input_text,
}
use pirate_servers.Deck.Services.{add_registered, register, forward, handle_services_cabins_input}
use pirate_servers.Deck.Workers.{dispatch_server}

abbrev pub fault_of {ℓ} : {A : Type ℓ} → Outcome A → Option Fault
fault_of (ok a) = none
fault_of (err fault) = some fault

-- The frames of a command, with the identities, CREW and COMMAND.
abbrev pub command_frames : Message → ℕ
command_frames [] = 5
command_frames (command ∷ arguments) = if command == "/join" then 6 else 5

-- The frames of a message of the crew, by whether the client is known and by what stands behind CREW.
abbrev pub crew_frames : Bool → Message → ℕ
crew_frames known [] = 4
crew_frames true (kind ∷ rest) =
    if kind == "COMMAND" then command_frames rest else if kind == "TEXT" then 5 else 4
crew_frames false (kind ∷ rest) = if kind == "LOGIN" then 6 else 4

-- The frames of a message of a server.
abbrev pub server_frames : Deck → Message → ℕ
server_frames d (s_id ∷ crew_id ∷ sender_type ∷ rest) =
    if sender_type == "CREW" then crew_frames (contains crew_id d.client_map) rest else 3
server_frames d _ = 3

-- The frames of a message of a cabin.
abbrev pub cabin_frames : Message → ℕ
cabin_frames (cab_id ∷ command ∷ rest) =
    if command == "REGISTRATION" then 3 else if command == "SEND" then 5 else 2
cabin_frames _ = 2

-- Whether a cabin introduces itself by fewer than three frames.
abbrev pub is_short : Option Message → Bool
is_short none = false
is_short (some reply) = ltb (length reply) 3

-- Whether a message registers a new cabin that then does so.
abbrev pub is_reply_short : Deck → Message → Option Message → Bool
is_reply_short d (cab_id ∷ command ∷ user_command ∷ rest) next =
    (command == "REGISTRATION")
    && (user_command == "JOIN")
    && not (contains cab_id d.cabin_id_to_info)
    && is_short next
is_reply_short d _ next = false

module _ (visit : Map CabinInfo → Map CabinInfo) (d : Deck) where
  -- What is read of the frames behind the sender's type.
  abbrev crew_fault : String → Message → Option Fault
  crew_fault crew_id rest =
      if ltb (length rest + 3) (crew_frames (contains crew_id d.client_map) rest)
      then some out_of_range
      else none

  crew_faults_exactly :
      (s_id crew_id sender : String) (rest : Message)
      → fault_of (handle_crewmate_input visit (s_id ∷ crew_id ∷ sender ∷ rest) d)
        ≡ crew_fault crew_id rest
  unfolding handle_crewmate_input handle_crewmate_input_command handle_crewmate_input_text
  crew_faults_exactly s_id crew_id sender [] = refl
  crew_faults_exactly s_id crew_id sender (kind ∷ []) = ground arith
  crew_faults_exactly s_id crew_id sender (kind ∷ first ∷ []) =
      ground (arith, eq_through first "/leave" "/join")
  crew_faults_exactly s_id crew_id sender (kind ∷ first ∷ second ∷ rest) =
      ground (arith, eq_through first "/leave" "/join")

  -- A message of a server is read past its end just if it has fewer frames than its kind needs, and
  -- else it is handled to the end.
  pub server_faults_exactly :
      (input : Message)
      → fault_of (dispatch_server visit input d)
        ≡ (if ltb (length input) (server_frames d input) then some out_of_range else none)
  unfolding dispatch_server
  server_faults_exactly [] = refl
  server_faults_exactly (s_id ∷ []) = refl
  server_faults_exactly (s_id ∷ crew_id ∷ []) = refl
  server_faults_exactly (s_id ∷ crew_id ∷ sender ∷ rest) = ground (
    arith,
    eq_through sender "SHIP" "CREW",
    eq_through sender "SUB" "CREW",
    crew_faults_exactly s_id crew_id sender rest,
  )

add_registered_fault :
    (reply : Message) (d : Deck) (sent : List Sent)
    → fault_of {A = Deck × List Sent} (add_registered reply d >>= λ d'. ok (d', sent))
      ≡ (if ltb (length reply) 3 then some out_of_range else none)
unfolding add_registered
add_registered_fault [] d sent = refl
add_registered_fault (g_id ∷ []) d sent = refl
add_registered_fault (g_id ∷ title ∷ []) d sent = refl
add_registered_fault (g_id ∷ title ∷ desc ∷ rest) d sent = ground arith

register_fault :
    (cab_id command user_command : String) (rest : Message) (next : Option Message) (d : Deck)
    → fault_of (register (cab_id ∷ command ∷ user_command ∷ rest) next d) ≡ (
        if (user_command == "JOIN") && not (contains cab_id d.cabin_id_to_info) && is_short next
        then some out_of_range
        else none)
unfolding register
register_fault cab_id command user_command rest none d = ground arith
register_fault cab_id command user_command rest (some reply) d =
    let accepted = to_cabins (cab_id ∷ "SHIP" ∷ "SUCCESS" ∷ cab_id ∷ []) ∷ [] in
    ground (arith, add_registered_fault reply d accepted)

forward_fault :
    (cab_id command m_type : String) (rest : Message) (d : Deck)
    → length rest + 3 < u64_mod
    → fault_of (forward (cab_id ∷ command ∷ m_type ∷ rest) d)
      ≡ (if ltb (length rest) 2 then some out_of_range else none)
unfolding forward
forward_fault cab_id command m_type [] d fits = refl
forward_fault cab_id command m_type (name ∷ []) d fits = refl
forward_fault cab_id command m_type (name ∷ sender ∷ frames) d fits =
    ground (arith, subspan_rest (cab_id ∷ command ∷ m_type ∷ name ∷ sender ∷ frames) 5)

pub cabins_fault_exactly :
    (input : Message) (next : Option Message) (d : Deck)
    → length input < u64_mod
    → fault_of (handle_services_cabins_input input next d) ≡ (
        if ltb (length input) (cabin_frames input) || is_reply_short d input next
        then some out_of_range
        else none)
unfolding handle_services_cabins_input
cabins_fault_exactly [] next d fits = refl
cabins_fault_exactly (cab_id ∷ []) next d fits = refl
cabins_fault_exactly (cab_id ∷ command ∷ []) next d fits = unfold register forward in ground arith
cabins_fault_exactly (cab_id ∷ command ∷ user_command ∷ rest) next d fits = ground (
  arith,
  register_fault cab_id command user_command rest next d,
  forward_fault cab_id command user_command rest d,
)

-- Of what the servers and the cabins send, the ship deck reads past the end just if a message has
-- fewer frames than its kind needs, or a new cabin introduces itself by fewer than three; every other
-- message, of fewer than 2^64 frames if it is a cabin's, is handled to the end.
pub listeners_fault_exactly :
    (visit : Map CabinInfo → Map CabinInfo) (reqs input : Message) (next : Option Message)
    (d : Deck)
    → length input < u64_mod
    → (fault_of (dispatch_server visit reqs d)
        ≡ (if ltb (length reqs) (server_frames d reqs) then some out_of_range else none))
      × (fault_of (handle_services_cabins_input input next d) ≡ (
          if ltb (length input) (cabin_frames input) || is_reply_short d input next
          then some out_of_range
          else none))
listeners_fault_exactly visit reqs input next d fits =
    (server_faults_exactly visit d reqs, cabins_fault_exactly input next d fits)
