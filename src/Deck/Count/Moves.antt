-- ===== src/Deck/Count/Moves.antt =====
-- `change_player_cabins` (src/server/Shipdeck.cpp) and the count of players.
use pirate_servers.Base.{
  ◌≡◌, ◌≢◌, inl, inr, arith, ◌==◌, eq_iff, Bool-cases, if◌then◌else◌, true, false,
}
use pirate_servers.Base.Map.{index-touch, touch, contains}
use pirate_servers.Base.Word.{inc32, dec32}
use pirate_servers.Defines.{ClientId, CabinId, no_client, set_cabin_id}
use pirate_servers.Deck.{Deck, client_at, touch_client}
use pirate_servers.Deck.Move.{leave_cabin, enter_cabin, change_player_cabins}
use pirate_servers.Deck.Count.{
  occupancy, playing, IsCounted, playing-count_players, contains-count_players, occupancy-insert,
  occupancy-touch,
}

pub contains-leave_cabin :
    (k c : CabinId) (d : Deck)
    → contains c d.cabin_id_to_info ≡ true
    → contains c (leave_cabin k d).cabin_id_to_info ≡ true
unfolding leave_cabin
contains-leave_cabin k c d h = ground (arith, contains-count_players dec32 c k d.cabin_id_to_info h)

pub client_map-leave_cabin : (k : CabinId) (d : Deck) → (leave_cabin k d).client_map ≡ d.client_map
unfolding leave_cabin
client_map-leave_cabin k d = ground arith

module _ (c : CabinId) (named : c ≢ "") where
  pub playing-leave_cabin :
      (k : CabinId) (d : Deck)
      → playing c (leave_cabin k d).cabin_id_to_info
        ≡ (if k == c then dec32 (playing c d.cabin_id_to_info) else playing c d.cabin_id_to_info)
  unfolding leave_cabin
  playing-leave_cabin k d = ground (
    arith,
    eq_iff k "",
    eq_iff k c,
    eq_iff "" c,
    playing-count_players dec32 c k d.cabin_id_to_info,
  )

  -- A client that is online moves from one cabin to another.
  pub enter_cabin-IsCounted :
      (crew_id : ClientId) (cab_id : CabinId) (d : Deck)
      → (client_at crew_id d).c_online ≡ true
      → IsCounted c d
      → IsCounted c (
          enter_cabin crew_id cab_id
            (leave_cabin (client_at crew_id d).curr_cabin (touch_client crew_id d)))
  unfolding enter_cabin
  enter_cabin-IsCounted crew_id cab_id d online h =
      let left = leave_cabin (client_at crew_id d).curr_cabin (touch_client crew_id d) in
      rw
        (
          client_map-leave_cabin (client_at crew_id d).curr_cabin (touch_client crew_id d),
          index-touch crew_id crew_id no_client d.client_map,
        )
        (ground (
          arith,
          playing-count_players inc32 c cab_id left.cabin_id_to_info,
          playing-leave_cabin (client_at crew_id d).curr_cabin (touch_client crew_id d),
          occupancy-insert c named crew_id (set_cabin_id cab_id (client_at crew_id d))
              (touch crew_id no_client d.client_map),
          occupancy-touch c named crew_id d.client_map,
          index-touch crew_id crew_id no_client d.client_map,
        ))

  -- Whatever cabin a client that is online is sent to, registered or not, the counts stay right.
  pub change_player_cabins-IsCounted :
      (crew_id : ClientId) (cab_id : CabinId) (d : Deck)
      → (client_at crew_id d).c_online ≡ true
      → IsCounted c d
      → IsCounted c (change_player_cabins crew_id cab_id d).0
  unfolding change_player_cabins
  change_player_cabins-IsCounted crew_id cab_id d online h =
      elim (Bool-cases (contains cab_id d.cabin_id_to_info)) [
        | inl registered ↦
            rw
              (
                online,
                registered,
                contains-leave_cabin (client_at crew_id d).curr_cabin cab_id
                    (touch_client crew_id d) registered,
              )
              (enter_cabin-IsCounted crew_id cab_id d online h)
        | inr missing ↦ rw (online, missing) (rw (occupancy-touch c named crew_id d.client_map) h)
      ]

  -- A client that is offline is counted out of the cabin of its last visit, once more at each call.
  pub change_player_cabins-offline :
      (crew_id : ClientId) (cab_id : CabinId) (d : Deck)
      → (client_at crew_id d).c_online ≡ false
      → let d' = (change_player_cabins crew_id cab_id d).0 in
        (playing c d'.cabin_id_to_info ≡ (
          if (client_at crew_id d).curr_cabin == c
          then dec32 (playing c d.cabin_id_to_info)
          else playing c d.cabin_id_to_info))
        × (occupancy c d'.client_map ≡ occupancy c d.client_map)
  unfolding change_player_cabins
  change_player_cabins-offline crew_id cab_id d offline = rw offline (
    playing-leave_cabin (client_at crew_id d).curr_cabin (touch_client crew_id d),
    rw (client_map-leave_cabin (client_at crew_id d).curr_cabin (touch_client crew_id d))
        (occupancy-touch c named crew_id d.client_map),
  )
