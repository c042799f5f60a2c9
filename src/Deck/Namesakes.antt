-- ===== src/Deck/Namesakes.antt =====
-- What a login does to the other clients of the ship deck (src/server/Shipdeck.cpp), those of the same
-- name included.
use pirate_servers.Base.{
  ◌+◌, ◌<◌, String, ◌≡◌, ◌≢◌, ap, ◌∙◌, Option, true, List, [], ◌∷◌, length, arith, ◌==◌, eq_refl,
  eq_of_ne, if◌then◌else◌,
}
use pirate_servers.Base.Map.{Map, contains, index, insert, lookup-insert_self, or_default}
use pirate_servers.Base.Outcome.{Outcome, ok}
use pirate_servers.Base.Word.{u64_mod}
use pirate_servers.Wire.{Message}
use pirate_servers.Defines.{
  CabinInfo, ClientInfo, ClientId, CabinId, client_info, set_crew_id, set_server_id, set_cabin_id,
}
use pirate_servers.Deck.{Deck, Sent, to_server, client_at, cabin_named, touch_name}
use pirate_servers.Deck.Crew.{login}
use pirate_servers.Deck.Services.{handle_services_cabins_input}
use pirate_servers.Deck.Delivery.{
  arrive, change_player_cabins_registered, crew_name_to_id-arrive, forward_confined, moved_client,
}
use pirate_servers.Deck.Placed.{index-insert}

-- What the ship deck sends for a message of a cabin to the user of a client.
abbrev pub forwarded : CabinId → String → String → Message → ClientId → ClientInfo → List Sent
forwarded cab_id m_type sender_username frames crew_id client =
    if cab_id == client.curr_cabin
    then to_server (client.c_server_id ∷ crew_id ∷ "CABIN" ∷ m_type ∷ sender_username ∷ frames) ∷ []
    else []

module _ (visit : Map CabinInfo → Map CabinInfo) (s_id crew_id username password : String)
    (d : Deck)
    (registered : contains (cabin_named d.default_cabin d) d.cabin_id_to_info ≡ true) where
  abbrev entry : ClientInfo
  entry = set_crew_id crew_id (set_server_id s_id (client_info username password))

  abbrev known : Deck
  known = touch_name d.default_cabin (record d {
    client_map = insert crew_id entry d.client_map;
    crew_name_to_id = insert username crew_id d.crew_name_to_id;
  })

  abbrev default_id : CabinId
  default_id = cabin_named d.default_cabin d

  at_self : client_at crew_id known ≡ entry
  at_self = index-insert crew_id crew_id entry d.client_map ∙ rw (eq_refl crew_id)

  arrives : (login visit s_id crew_id username password d).0 ≡ arrive crew_id default_id known
  unfolding login
  arrives =
      ap (λ (x : Deck × List Sent). x.0)
        (change_player_cabins_registered crew_id default_id known (rw at_self) registered)

  clients :
      (k : ClientId)
      → client_at k (arrive crew_id default_id known)
        ≡ (if crew_id == k then set_cabin_id default_id entry else client_at k d)
  clients k =
      moved_client crew_id default_id known k
      ∙ rw (at_self, index-insert crew_id k entry d.client_map) (ground arith)

  self : client_at crew_id (arrive crew_id default_id known) ≡ set_cabin_id default_id entry
  self = clients crew_id ∙ rw (eq_refl crew_id)

  named : index username "" (arrive crew_id default_id known).crew_name_to_id ≡ crew_id
  named =
      rw (crew_name_to_id-arrive crew_id default_id known)
        (ap (or_default "") (lookup-insert_self username crew_id d.crew_name_to_id))

  -- The first login of a client, by whatever name, where the default cabin is registered: what a
  -- cabin then sends to that name goes to the new client, and only from the default cabin; all other
  -- clients stay as they are, and one that bears the name already is sent nothing, in whatever cabin
  -- it is.
  pub login_takes_name :
      (other : ClientId) (cab_id m_type sender_username : String) (frames : Message)
      (next : Option Message)
      → crew_id ≢ other
      → length frames + 5 < u64_mod
      → let entered = (login visit s_id crew_id username password d).0 in
        (client_at other entered ≡ client_at other d)
        × (d' : Deck) × (handle_services_cabins_input
              (cab_id ∷ "SEND" ∷ m_type ∷ username ∷ sender_username ∷ frames)
              next
              entered
            ≡ ok (
              d',
              if cab_id == default_id
                  then to_server (s_id ∷ crew_id ∷ "CABIN" ∷ m_type ∷ sender_username ∷ frames) ∷ []
                  else [],
            ))
  login_takes_name other cab_id m_type sender_username frames next differs fits =
      let arrived = arrive crew_id default_id known in
      let (d', sends, kept, infos) =
        forward_confined cab_id m_type username sender_username frames next arrived fits in
      let result : ClientId → ClientInfo → Outcome (Deck × List Sent) =
        λ k client. ok (d', forwarded cab_id m_type sender_username frames k client) in
      rw arrives (
        clients other ∙ rw (eq_of_ne crew_id other differs),
        d',
        sends ∙ ap (λ k. result k (client_at k arrived)) named ∙ ap (result crew_id) self,
      )
