-- ===== src/Deck/Access.antt =====
-- Whom the ship deck (src/server/Shipdeck.cpp) lets in, and which messages it can read.
use pirate_servers.Base.{
  String, ◌≡◌, refl, ◌∙◌, List, [], ◌∷◌, true, false, arith, ◌==◌, eq_refl, ap, eq_through,
}
use pirate_servers.Base.Map.{Map, contains, index, touch, lookup-insert_self, or_default, insert}
use pirate_servers.Base.Outcome.{ok, err, out_of_range, value_of_is_ok}
use pirate_servers.Wire.{Message}
use pirate_servers.Defines.{CabinInfo, set_cabin_id, client_info, set_crew_id, set_server_id}
use pirate_servers.Deck.{Deck, Sent, to_cabins, to_server, client_at, cabin_named}
use pirate_servers.Deck.Crew.{
  handle_crewmate_input, handle_crewmate_input_command, handle_crewmate_input_text, login,
}
use pirate_servers.Deck.Workers.{dispatch_server}
use pirate_servers.Deck.Delivery.{
  arrive, change_player_cabins_registered, moved_client, crew_name_to_id-arrive,
}
use pirate_servers.Deck.Placed.{index-insert}

module _ (visit : Map CabinInfo → Map CabinInfo) where
  -- A client that has not logged in changes nothing and is answered nothing, whatever it sends but a
  -- login; and so is a client that logs in again, with any name and password.
  pub login_once :
      (s_id crew_id sender_type message_type : String) (arguments : Message) (d : Deck)
      → contains crew_id d.client_map ≡ (message_type == "LOGIN")
      → handle_crewmate_input visit (s_id ∷ crew_id ∷ sender_type ∷ message_type ∷ arguments) d
        ≡ ok (d, [])
  unfolding handle_crewmate_input
  login_once s_id crew_id sender_type message_type arguments d h =
      ground
        (arith, eq_through message_type "LOGIN" "COMMAND", eq_through message_type "LOGIN" "TEXT")

  -- A message of six frames or more, whatever it says, is handled to the end.
  pub handle_crewmate_input_total :
      (s_id crew_id sender_type message_type first second : String) (rest : Message) (d : Deck)
      → (result : Deck × List Sent) × (handle_crewmate_input visit
            (s_id ∷ crew_id ∷ sender_type ∷ message_type ∷ first ∷ second ∷ rest)
            d
          ≡ ok result)
  unfolding handle_crewmate_input handle_crewmate_input_command handle_crewmate_input_text
  handle_crewmate_input_total s_id crew_id sender_type message_type first second rest d =
      value_of_is_ok _ (ground arith)

  -- A peer that is not logged in can make the ship deck read behind the end of a message: by an
  -- empty message, by one that ends at CREW, and by a login without its name or its password.
  pub short_messages_fault :
      (s_id crew_id username : String) (d : Deck)
      → contains crew_id d.client_map ≡ false
      → (dispatch_server visit (s_id ∷ crew_id ∷ []) d ≡ err out_of_range)
        × (dispatch_server visit (s_id ∷ crew_id ∷ "CREW" ∷ []) d ≡ err out_of_range)
        × (dispatch_server visit (s_id ∷ crew_id ∷ "CREW" ∷ "LOGIN" ∷ []) d ≡ err out_of_range)
        × (dispatch_server visit (s_id ∷ crew_id ∷ "CREW" ∷ "LOGIN" ∷ username ∷ []) d
            ≡ err out_of_range)
  unfolding dispatch_server handle_crewmate_input
  short_messages_fault s_id crew_id username d h = (refl, refl, ground arith, ground arith)

  -- The first login of a client puts it, online and under its own name, into the default cabin, and
  -- is answered by an acknowledgement to its server before the cabin hears of it.
  pub login_enters :
      (s_id crew_id username password : String) (rest : Message) (d : Deck)
      → contains crew_id d.client_map ≡ false
      → contains (cabin_named d.default_cabin d) d.cabin_id_to_info ≡ true
      → let cab_id = cabin_named d.default_cabin d in
        (d' : Deck) × (handle_crewmate_input visit
            (s_id ∷ crew_id ∷ "CREW" ∷ "LOGIN" ∷ username ∷ password ∷ rest)
            d
          ≡ ok (
            d',
            to_server (s_id ∷ crew_id ∷ "SHIP" ∷ "ACK" ∷ [])
                ∷ to_cabins ("" ∷ "DISCONNECT" ∷ username ∷ [])
                ∷ to_cabins (cab_id ∷ "JOIN" ∷ username ∷ [])
                ∷ [],
          ))
        × (client_at crew_id d' ≡ record {
          c_id = crew_id;
          c_server_id = s_id;
          curr_cabin = cab_id;
          c_username = username;
          c_password = password;
          c_online = true;
        })
        × (index username "" d'.crew_name_to_id ≡ crew_id)
  unfolding handle_crewmate_input login
  login_enters s_id crew_id username password rest d fresh registered =
      let client = set_crew_id crew_id (set_server_id s_id (client_info username password)) in
      let known = record d {
        client_map = insert crew_id client d.client_map;
        crew_name_to_id = insert username crew_id d.crew_name_to_id;
        cabin_name_to_id = touch d.default_cabin "" d.cabin_name_to_id;
      } in
      let cab_id = cabin_named d.default_cabin d in
      let at_self : client_at crew_id known ≡ client =
        index-insert crew_id crew_id client d.client_map ∙ rw (eq_refl crew_id) in
      (
        arrive crew_id cab_id known,
        rw fresh (
            rw (change_player_cabins_registered crew_id cab_id known (rw at_self) registered)
              (rw at_self)),
        rw (moved_client crew_id cab_id known crew_id)
            (rw (eq_refl crew_id) (ap (set_cabin_id cab_id) at_self)),
        rw (crew_name_to_id-arrive crew_id cab_id known)
            (ap (or_default "") (lookup-insert_self username crew_id d.crew_name_to_id)),
      )
