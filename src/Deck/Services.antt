-- ===== src/Deck/Services.antt =====
-- What the ship deck does with a message of a cabin or of another ship: `handle_services_cabins_input`
-- and `handle_services_ships_input` of src/server/Shipdeck.cpp.
use pirate_servers.Base.{
  Option, none, some, List, [], ◌∷◌, ◌++◌, length, not, ◌&&◌, ◌==◌, if◌then◌else◌,
}
use pirate_servers.Base.Outcome.{Outcome, ok, ◌>>=◌}
use pirate_servers.Base.Map.{index, insert, contains, touch}
use pirate_servers.Base.Word.{sub64}
use pirate_servers.Wire.{Message, frame, subspan}
use pirate_servers.Defines.{cabin_info}
use pirate_servers.Deck.{Deck, Sent, to_cabins, to_server, client_at, touch_client}

-- The cabin that a message with an id, a title and a description introduces.
unfoldable pub add_registered : Message → Deck → Outcome Deck
add_registered cabin_info_reply d = do
  g_id ← frame cabin_info_reply 0
  title ← frame cabin_info_reply 1
  desc ← frame cabin_info_reply 2
  let new_cabin = record (cabin_info title desc) { g_id = g_id; curr_playing = 0 }
  ok (record d {
    cabin_name_to_id = insert title g_id d.cabin_name_to_id;
    cabin_id_to_info = insert g_id new_cabin d.cabin_id_to_info;
    default_cabin = if d.default_cabin == "" then title else d.default_cabin;
  })

-- The branch of a registration. The last argument is the next message that `cabins_router` delivers
-- within the 500 milliseconds of the poll, if one does.
unfoldable pub register : Message → Option Message → Deck → Outcome (Deck × List Sent)
register input next d = do
  user_command ← frame input 2
  cab_id ← frame input 0
  let reply = to_cabins (cab_id ∷ "SHIP" ∷ "SUCCESS" ∷ cab_id ∷ [])
  if user_command == "JOIN" && not (contains cab_id d.cabin_id_to_info)
      then elim next [
        | none ↦ ok (d, reply ∷ [])
        | some cabin_info_reply ↦ do d' ← add_registered cabin_info_reply d; ok (d', reply ∷ [])
      ]
      else ok (d, [])

-- The branch of a cabin that sends to one of the crew.
unfoldable pub forward : Message → Deck → Outcome (Deck × List Sent)
forward input d = do
  crew_username ← frame input 3
  sender_username ← frame input 4
  cab_id ← frame input 0
  m_type ← frame input 2
  let crew_id = index crew_username "" d.crew_name_to_id
  let named = record d { crew_name_to_id = touch crew_username "" d.crew_name_to_id }
  let client = client_at crew_id d
  let touched = touch_client crew_id named
  if cab_id == client.curr_cabin
      then (do
        frames ← subspan input 5 (sub64 (length input) 5)
        ok (
          touched,
          to_server
                ((client.c_server_id ∷ crew_id ∷ "CABIN" ∷ m_type ∷ sender_username ∷ []) ++ frames)
              ∷ [],
        ))
      else ok (touched, [])

unfoldable pub handle_services_cabins_input :
    Message → Option Message → Deck → Outcome (Deck × List Sent)
handle_services_cabins_input input next d = do
  command ← frame input 1
  if command == "REGISTRATION"
      then register input next d
      else if command == "SEND"
      then forward input d
      else ok (d, [])

unfoldable pub handle_services_ships_input : Message → Deck → Outcome (Deck × List Sent)
handle_services_ships_input input d = ok (d, to_server input ∷ [])
