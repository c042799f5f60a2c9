-- ===== src/Deck/Delivery.antt =====
-- What the ship deck (src/server/Shipdeck.cpp) sends, to whom, and whom it moves.
use pirate_servers.Base.{
  ◌+◌, ◌<◌, String, ◌≡◌, ◌≢◌, refl, Option, [], ◌∷◌, true, arith, length, ◌==◌, if◌then◌else◌,
}
use pirate_servers.Base.Map.{contains, index, index-touch, touch}
use pirate_servers.Base.Outcome.{ok}
use pirate_servers.Base.Word.{u64_mod, inc32, dec32}
use pirate_servers.Wire.{Message}
use pirate_servers.Wire.Spans.{subspan_rest}
use pirate_servers.Defines.{ClientId, CabinId, no_client, set_cabin_id}
use pirate_servers.Deck.{Deck, to_cabins, to_server, client_at, touch_client}
use pirate_servers.Deck.Move.{change_player_cabins, leave_cabin, enter_cabin}
use pirate_servers.Deck.Services.{forward, handle_services_cabins_input}
use pirate_servers.Deck.Count.{playing, playing-count_players}
use pirate_servers.Deck.Count.Moves.{
  playing-leave_cabin, client_map-leave_cabin, contains-leave_cabin,
}
use pirate_servers.Deck.Placed.{index-insert}

-- A message that a cabin sends to a user goes to the server of the client of that name, with the
-- cabin's frames behind it, if that client is in the cabin; otherwise nothing is sent. No client
-- moves and no count changes.
pub forward_confined :
    (cab_id m_type crew_username sender_username : String) (frames : Message)
    (next : Option Message) (d : Deck)
    → length frames + 5 < u64_mod
    → let crew_id = index crew_username "" d.crew_name_to_id in
      let client = client_at crew_id d in
      (d' : Deck) × (handle_services_cabins_input
          (cab_id ∷ "SEND" ∷ m_type ∷ crew_username ∷ sender_username ∷ frames)
          next
          d
        ≡ ok (
          d',
          if cab_id == client.curr_cabin
              then to_server
                  (client.c_server_id ∷ crew_id ∷ "CABIN" ∷ m_type ∷ sender_username ∷ frames)
                ∷ []
              else [],
        ))
      × ((k : ClientId) → client_at k d' ≡ client_at k d)
      × (d'.cabin_id_to_info ≡ d.cabin_id_to_info)
unfolding handle_services_cabins_input forward
forward_confined cab_id m_type crew_username sender_username frames next d fits =
    let crew_id = index crew_username "" d.crew_name_to_id in
    (
      touch_client crew_id
          (record d { crew_name_to_id = touch crew_username "" d.crew_name_to_id }),
      ground (
        arith,
        subspan_rest (cab_id ∷ "SEND" ∷ m_type ∷ crew_username ∷ sender_username ∷ frames) 5,
      ),
      λ k. index-touch crew_id k no_client d.client_map,
      refl,
    )

abbrev pub arrive : ClientId → CabinId → Deck → Deck
arrive crew_id cab_id d =
    enter_cabin crew_id cab_id
      (leave_cabin (client_at crew_id d).curr_cabin (touch_client crew_id d))

pub change_player_cabins_registered :
    (crew_id : ClientId) (cab_id : CabinId) (d : Deck)
    → (client_at crew_id d).c_online ≡ true
    → contains cab_id d.cabin_id_to_info ≡ true
    → change_player_cabins crew_id cab_id d ≡ (
      arrive crew_id cab_id d,
      to_cabins (
            (client_at crew_id d).curr_cabin ∷ "DISCONNECT" ∷ (client_at crew_id d).c_username ∷ [])
          ∷ to_cabins (cab_id ∷ "JOIN" ∷ (client_at crew_id d).c_username ∷ [])
          ∷ [],
    )
unfolding change_player_cabins
change_player_cabins_registered crew_id cab_id d online registered = rw (
  online,
  registered,
  contains-leave_cabin (client_at crew_id d).curr_cabin cab_id (touch_client crew_id d) registered,
)

pub moved_client :
    (crew_id : ClientId) (cab_id : CabinId) (d : Deck) (k : ClientId)
    → client_at k (arrive crew_id cab_id d)
      ≡ (if crew_id == k then set_cabin_id cab_id (client_at crew_id d) else client_at k d)
unfolding enter_cabin
moved_client crew_id cab_id d k = rw (
  client_map-leave_cabin (client_at crew_id d).curr_cabin (touch_client crew_id d),
  index-insert crew_id k _ (touch crew_id no_client d.client_map),
  index-touch crew_id crew_id no_client d.client_map,
  index-touch crew_id k no_client d.client_map,
)

pub crew_name_to_id-leave_cabin :
    (k : CabinId) (d : Deck) → (leave_cabin k d).crew_name_to_id ≡ d.crew_name_to_id
unfolding leave_cabin
crew_name_to_id-leave_cabin k d = ground arith

pub crew_name_to_id-arrive :
    (crew_id : ClientId) (cab_id : CabinId) (d : Deck)
    → (arrive crew_id cab_id d).crew_name_to_id ≡ d.crew_name_to_id
unfolding enter_cabin
crew_name_to_id-arrive crew_id cab_id d = crew_name_to_id-leave_cabin _ (touch_client crew_id d)

moved_counts :
    (c : CabinId)
    → c ≢ ""
    → (crew_id : ClientId) (cab_id : CabinId) (d : Deck)
    → let left =
        if (client_at crew_id d).curr_cabin == c
        then dec32 (playing c d.cabin_id_to_info)
        else playing c d.cabin_id_to_info in
      playing c (arrive crew_id cab_id d).cabin_id_to_info
      ≡ (if cab_id == c then inc32 left else left)
unfolding enter_cabin
moved_counts c named crew_id cab_id d =
    let old = (client_at crew_id d).curr_cabin in
    let touched = touch_client crew_id d in
    rw (
      playing-count_players inc32 c cab_id (leave_cabin old touched).cabin_id_to_info,
      playing-leave_cabin c named old touched,
    )

-- A client that is online and is sent to a registered cabin: its old cabin is told to let it go and
-- then the new one to take it, it is in the new cabin and no other client moves, and of the counts
-- the old cabin's falls by one and then the new one's rises by one.
pub change_player_cabins_moves :
    (crew_id : ClientId) (cab_id : CabinId) (d : Deck) (k : ClientId) (c : CabinId)
    → (client_at crew_id d).c_online ≡ true
    → contains cab_id d.cabin_id_to_info ≡ true
    → c ≢ ""
    → let client = client_at crew_id d in
      let (d', sent) = change_player_cabins crew_id cab_id d in
      let left =
        if client.curr_cabin == c
        then dec32 (playing c d.cabin_id_to_info)
        else playing c d.cabin_id_to_info in
      (sent
        ≡ to_cabins (client.curr_cabin ∷ "DISCONNECT" ∷ client.c_username ∷ [])
          ∷ to_cabins (cab_id ∷ "JOIN" ∷ client.c_username ∷ [])
          ∷ [])
      × (client_at k d' ≡ (if crew_id == k then set_cabin_id cab_id client else client_at k d))
      × (playing c d'.cabin_id_to_info ≡ (if cab_id == c then inc32 left else left))
change_player_cabins_moves crew_id cab_id d k c online registered named =
    rw (change_player_cabins_registered crew_id cab_id d online registered)
      (refl, moved_client crew_id cab_id d k, moved_counts c named crew_id cab_id d)
