-- ===== src/Deck/Change.antt =====
-- What a call of `change_player_cabins` of src/server/Shipdeck.cpp can come to.
use pirate_servers.Base.{◌≡◌, Bool-cases, inl, inr, true, false, List, [], ◌∷◌}
use pirate_servers.Base.Map.{contains, index-touch}
use pirate_servers.Defines.{ClientId, CabinId, no_client}
use pirate_servers.Deck.{Deck, Sent, to_cabins, client_at, touch_client}
use pirate_servers.Deck.Move.{change_player_cabins, leave_cabin}
use pirate_servers.Deck.Count.Moves.{client_map-leave_cabin}
use pirate_servers.Deck.Delivery.{
  arrive, change_player_cabins_registered, crew_name_to_id-leave_cabin, crew_name_to_id-arrive,
}

abbrev pub disconnect_old : ClientId → Deck → Sent
disconnect_old crew_id d =
    to_cabins
      ((client_at crew_id d).curr_cabin ∷ "DISCONNECT" ∷ (client_at crew_id d).c_username ∷ [])

abbrev pub join_new : ClientId → CabinId → Deck → Sent
join_new crew_id cab_id d = to_cabins (cab_id ∷ "JOIN" ∷ (client_at crew_id d).c_username ∷ [])

abbrev pub left : ClientId → Deck → Deck
left crew_id d = leave_cabin (client_at crew_id d).curr_cabin (touch_client crew_id d)

-- What a call can come to.
pub data Change (crew_id : ClientId) (cab_id : CabinId) (d : Deck) (r : Deck × List Sent)
    : Type 0 where
  refused :
      (client_at crew_id d).c_online ≡ true
      → r ≡ (touch_client crew_id d, [])
      → Change crew_id cab_id d r
  moved :
      (client_at crew_id d).c_online ≡ true
      → r ≡ (arrive crew_id cab_id d, disconnect_old crew_id d ∷ join_new crew_id cab_id d ∷ [])
      → Change crew_id cab_id d r
  sent_away :
      (client_at crew_id d).c_online ≡ false
      → r ≡ (left crew_id d, disconnect_old crew_id d ∷ [])
      → Change crew_id cab_id d r

pub change_player_cabins-Change :
    (crew_id : ClientId) (cab_id : CabinId) (d : Deck)
    → Change crew_id cab_id d (change_player_cabins crew_id cab_id d)
unfolding change_player_cabins
change_player_cabins-Change crew_id cab_id d = elim (Bool-cases (client_at crew_id d).c_online) [
  | inl online ↦ elim (Bool-cases (contains cab_id d.cabin_id_to_info)) [
    | inl registered ↦
        moved online (change_player_cabins_registered crew_id cab_id d online registered)
    | inr missing ↦ refused online (rw (online, missing))
  ]
  | inr offline ↦ sent_away offline (rw offline)
]

pub client_at-left :
    (crew_id k : ClientId) (d : Deck) → client_at k (left crew_id d) ≡ client_at k d
client_at-left crew_id k d =
    rw (client_map-leave_cabin (client_at crew_id d).curr_cabin (touch_client crew_id d))
      (index-touch crew_id k no_client d.client_map)

module _ (crew_id : ClientId) (cab_id : CabinId) (d : Deck) where
  pub same_names :
      (r : Deck × List Sent) → Change crew_id cab_id d r → r.0.crew_name_to_id ≡ d.crew_name_to_id
  same_names r (refused online e) = rw e
  same_names r (moved online e) = rw e (crew_name_to_id-arrive crew_id cab_id d)
  same_names r (sent_away offline e) = rw e (crew_name_to_id-leave_cabin _ (touch_client crew_id d))
