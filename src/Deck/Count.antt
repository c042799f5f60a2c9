-- ===== src/Deck/Count.antt =====
-- The count of players that the ship deck keeps for each cabin (src/server/Shipdeck.cpp), against
-- the clients that are there.
pub mod Moves
pub mod Steps
pub mod Quits
use pirate_servers.Base.{
  ℕ, ◌+◌, ◌%◌, ◌≡◌, refl, ◌≢◌, Bool, inl, inr, arith, ◌&&◌, ◌==◌, eq_iff, bit, Bool-cases,
  if◌then◌else◌, true, false,
}
use pirate_servers.Base.Map.{
  Map, index, insert, lookup, tally, tally-insert, lookup-insert, touch, contains,
}
use pirate_servers.Base.Word.{u32_mod}
use pirate_servers.Defines.{ClientId, CabinId, ClientInfo, CabinInfo, no_client, no_cabin}
use pirate_servers.Deck.{Deck}
use pirate_servers.Deck.Move.{count_players}

abbrev pub occupies : CabinId → ClientInfo → Bool
occupies c client = client.c_online && (client.curr_cabin == c)

-- The number of online clients in a cabin.
abbrev pub occupancy : CabinId → Map ClientInfo → ℕ
occupancy c clients = tally (occupies c) clients

-- The count that the deck keeps.
abbrev pub playing : CabinId → Map CabinInfo → ℕ
playing c cabins = (index c no_cabin cabins).curr_playing

-- The count of a cabin is the number of online clients that are in it, as a 32-bit number.
abbrev pub IsCounted : CabinId → Deck → Type 0
IsCounted c d = playing c d.cabin_id_to_info ≡ occupancy c d.client_map % u32_mod

pub playing-count_players :
    (step : ℕ → ℕ) (c k : CabinId) (m : Map CabinInfo)
    → playing c (count_players step k m) ≡ (if k == c then step (playing c m) else playing c m)
unfolding count_players
playing-count_players step c k m = ground (
  arith,
  eq_iff k c,
  lookup-insert k c
      (record (index k no_cabin m) { curr_playing = step (index k no_cabin m).curr_playing }) m,
)

pub contains-count_players :
    (step : ℕ → ℕ) (c k : CabinId) (m : Map CabinInfo)
    → contains c m ≡ true
    → contains c (count_players step k m) ≡ true
unfolding count_players
contains-count_players step c k m h = ground (
  arith,
  eq_iff k c,
  lookup-insert k c
      (record (index k no_cabin m) { curr_playing = step (index k no_cabin m).curr_playing }) m,
)

module _ (c : CabinId) (named : c ≢ "") where
  -- A client that is not there counts for no cabin with a name.
  pub occupancy-insert :
      (k : ClientId) (client : ClientInfo) (m : Map ClientInfo)
      → occupancy c (insert k client m) + bit (occupies c (index k no_client m))
        ≡ occupancy c m + bit (occupies c client)
  occupancy-insert k client m = ground (arith, eq_iff "" c, tally-insert (occupies c) k client m)

  pub occupancy-touch :
      (k : ClientId) (m : Map ClientInfo) → occupancy c (touch k no_client m) ≡ occupancy c m
  occupancy-touch k m = ground (arith, eq_iff "" c, tally-insert (occupies c) k no_client m)
