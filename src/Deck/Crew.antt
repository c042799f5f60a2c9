-- ===== src/Deck/Crew.antt =====
-- What the ship deck does with a message of the crew: `handle_crewmate_input`,
-- `handle_crewmate_input_command` and `handle_crewmate_input_text` of src/server/Shipdeck.cpp.
use pirate_servers.Base.{String, List, [], ◌∷◌, ◌++◌, not, ◌&&◌, ◌==◌, if◌then◌else◌}
use pirate_servers.Base.Outcome.{Outcome, ok, ◌>>=◌}
use pirate_servers.Base.Map.{Map, index, insert, contains}
use pirate_servers.Wire.{Message, frame}
use pirate_servers.Defines.{
  ClientId, ServerId, CabinInfo, client_info, set_server_id, set_crew_id, set_offline,
  crew_header_mp, no_cabin, zmq_info,
}
use pirate_servers.Deck.{
  Deck, Sent, to_server, to_cabins, client_at, touch_client, cabin_named, touch_name,
}
use pirate_servers.Deck.Move.{change_player_cabins, modify_client}

-- The commands. `c`, the sender's entry, is in `client_map` when the deck comes to these.
unfoldable pub leave : ClientId → Deck → Deck × List Sent
leave crew_id d =
    let default_cabin_id = cabin_named d.default_cabin d in
    let touched = touch_client crew_id (touch_name d.default_cabin d) in
    if (client_at crew_id d).curr_cabin == default_cabin_id
    then (touched, [])
    else change_player_cabins crew_id default_cabin_id touched

unfoldable pub join : ClientId → String → Deck → Deck × List Sent
join crew_id cabin_name d =
    let cab_id = cabin_named cabin_name d in
    let touched = touch_client crew_id (touch_name cabin_name d) in
    if cab_id == (client_at crew_id d).curr_cabin
    then (touched, [])
    else change_player_cabins crew_id cab_id touched

unfoldable pub show : ServerId → ClientId → Deck → Deck × List Sent
show s_id crew_id d =
    let curr_cabin_id = (client_at crew_id d).curr_cabin in
    let info = index curr_cabin_id no_cabin d.cabin_id_to_info in
    if contains curr_cabin_id d.cabin_id_to_info
    then (
      touch_client crew_id d,
      to_server (crew_header_mp s_id crew_id "SHIP" "INFO" ++ zmq_info info) ∷ [],
    )
    else (touch_client crew_id d, [])

unfoldable pub ping : ServerId → ClientId → Deck → Deck × List Sent
ping s_id crew_id d = (d, to_server (crew_header_mp s_id crew_id "SHIP" "ACK") ∷ [])

-- The frames of all cabins, in the order of the entries given.
unfoldable pub all_infos : Map CabinInfo → Message
all_infos [] = []
all_infos ((k, cabin) ∷ m) = zmq_info cabin ++ all_infos m

unfoldable pub quit : ClientId → Deck → Deck × List Sent
quit crew_id d = change_player_cabins crew_id "" (modify_client crew_id set_offline d)

-- `visit` is the order in which the standard library's map yields its entries.
module _ (visit : Map CabinInfo → Map CabinInfo) where
  unfoldable pub showall : ServerId → ClientId → Deck → Deck × List Sent
  showall s_id crew_id d = (
    d,
    to_server (crew_header_mp s_id crew_id "SHIP" "INFO" ++ all_infos (visit d.cabin_id_to_info))
        ∷ [],
  )

  unfoldable pub handle_crewmate_input_command : Message → Deck → Outcome (Deck × List Sent)
  handle_crewmate_input_command input d = do
    command ← frame input 4
    crew_id ← frame input 1
    s_id ← frame input 0
    if command == "/leave"
        then ok (leave crew_id d)
        else if command == "/join"
        then (do cabin_name ← frame input 5; ok (join crew_id cabin_name d))
        else if command == "/show"
        then ok (show s_id crew_id d)
        else if command == "/ping"
        then ok (ping s_id crew_id d)
        else if command == "/showall"
        then ok (showall s_id crew_id d)
        else if command == "/quit"
        then ok (quit crew_id d)
        else ok (d, [])

  unfoldable pub handle_crewmate_input_text : Message → Deck → Outcome (Deck × List Sent)
  handle_crewmate_input_text input d = do
    crew_id ← frame input 1
    text_input ← frame input 4
    let client = client_at crew_id d
    ok (
      touch_client crew_id d,
      to_cabins (client.curr_cabin ∷ "TEXT" ∷ client.c_username ∷ text_input ∷ []) ∷ [],
    )

  -- A first login: the client's entry, the acknowledgement, and the way to the default cabin.
  unfoldable pub login : ServerId → ClientId → String → String → Deck → Deck × List Sent
  login s_id crew_id username password d =
      let client = set_crew_id crew_id (set_server_id s_id (client_info username password)) in
      let known = record d {
        client_map = insert crew_id client d.client_map;
        crew_name_to_id = insert username crew_id d.crew_name_to_id;
      } in
      let ack_reply = to_server (s_id ∷ crew_id ∷ "SHIP" ∷ "ACK" ∷ []) in
      let default_cabin_id = cabin_named known.default_cabin known in
      let (moved, sent) =
        change_player_cabins crew_id default_cabin_id (touch_name known.default_cabin known) in
      (moved, ack_reply ∷ sent)

  unfoldable pub handle_crewmate_input : Message → Deck → Outcome (Deck × List Sent)
  handle_crewmate_input input d = do
    message_type ← frame input 3
    crew_id ← frame input 1
    if message_type == "LOGIN" && not (contains crew_id d.client_map)
        then (do
          s_id ← frame input 0
          username ← frame input 4
          password ← frame input 5
          ok (login s_id crew_id username password d))
        else if not (contains crew_id d.client_map)
        then ok (d, [])
        else if message_type == "COMMAND"
        then handle_crewmate_input_command input d
        else if message_type == "TEXT"
        then handle_crewmate_input_text input d
        else ok (d, [])
