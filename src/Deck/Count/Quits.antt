-- ===== src/Deck/Count/Quits.antt =====
-- `/quit` (src/server/Shipdeck.cpp) and the count of players: right the first time, and wrong again.
use pirate_servers.Base.{◌+◌, ◌≡◌, ◌≢◌, arith, ◌==◌, eq_iff, bit, true, false, if◌then◌else◌}
use pirate_servers.Base.Map.{lookup-insert}
use pirate_servers.Base.Word.{dec32}
use pirate_servers.Defines.{ClientId, CabinId, set_offline}
use pirate_servers.Deck.{Deck, client_at}
use pirate_servers.Deck.Move.{modify_client}
use pirate_servers.Deck.Crew.{quit}
use pirate_servers.Deck.Count.{occupies, occupancy, playing, IsCounted, occupancy-insert}
use pirate_servers.Deck.Count.Moves.{change_player_cabins-offline}

client_at-modify_client :
    (crew_id : ClientId) (d : Deck)
    → client_at crew_id (modify_client crew_id set_offline d) ≡ set_offline (client_at crew_id d)
client_at-modify_client crew_id d = ground (
  arith,
  eq_iff crew_id crew_id,
  lookup-insert crew_id crew_id (set_offline (client_at crew_id d)) d.client_map,
)

module _ (c : CabinId) (named : c ≢ "") where
  -- A quit takes one player off the count of the client's cabin, online or not, and the client off
  -- the clients that are there.
  quit_lem :
      (crew_id : ClientId) (d : Deck)
      → let d' = (quit crew_id d).0 in
        (playing c d'.cabin_id_to_info ≡ (
          if (client_at crew_id d).curr_cabin == c
          then dec32 (playing c d.cabin_id_to_info)
          else playing c d.cabin_id_to_info))
        × (occupancy c d'.client_map + bit (occupies c (client_at crew_id d))
            ≡ occupancy c d.client_map)
  unfolding quit
  quit_lem crew_id d =
      let gone = modify_client crew_id set_offline d in
      ground (
        arith,
        client_at-modify_client crew_id d,
        change_player_cabins-offline c named crew_id "" gone,
        occupancy-insert c named crew_id (set_offline (client_at crew_id d)) d.client_map,
      )

  -- The first quit of a client keeps the count of every cabin right.
  pub quit-IsCounted :
      (crew_id : ClientId) (d : Deck)
      → (client_at crew_id d).c_online ≡ true
      → IsCounted c d
      → IsCounted c (quit crew_id d).0
  quit-IsCounted crew_id d online h = ground (arith, quit_lem crew_id d)

  -- A quit of a client that has quit before makes a right count of its last cabin wrong.
  pub quit_again_miscounts :
      (crew_id : ClientId) (d : Deck)
      → (client_at crew_id d).c_online ≡ false
      → (client_at crew_id d).curr_cabin ≡ c
      → IsCounted c d
      → ¬ IsCounted c (quit crew_id d).0
  quit_again_miscounts crew_id d offline there h bad =
      ground (arith, quit_lem crew_id d, eq_iff (client_at crew_id d).curr_cabin c)
