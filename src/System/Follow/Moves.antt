-- ===== src/System/Follow/Moves.antt =====
-- `change_player_cabins` of src/server/Shipdeck.cpp and what the cabins are told of it.
use pirate_servers.Base.{
  String, ◌≡◌, ◌≢◌, ap, ◌∙◌, Bool, true, eq_iff, eq_refl, ◌==◌, ◌&&◌, List, arith,
}
use pirate_servers.Base.Map.{index-touch}
use pirate_servers.Defines.{ClientId, CabinId, ClientInfo, no_client, set_cabin_id}
use pirate_servers.Deck.{Deck, Sent, client_at}
use pirate_servers.Deck.Delivery.{arrive, moved_client}
use pirate_servers.Lobby.Refinement.{present, present_after}
use pirate_servers.Lobby.Thread.{all_whole}
use pirate_servers.Deck.Change.{Change, refused, moved, sent_away, client_at-left}
use pirate_servers.System.Follow.{received, name_of, is_in}

module _ (crew_id : ClientId) (cab_id : CabinId) (d : Deck) where
  pub others_stay :
      (r : Deck × List Sent)
      → Change crew_id cab_id d r
      → (k : ClientId) → crew_id ≢ k
      → client_at k r.0 ≡ client_at k d
  others_stay r (refused online e) k other = rw e (index-touch crew_id k no_client d.client_map)
  others_stay r (moved online e) k other =
      rw e (moved_client crew_id cab_id d k ∙ ground (arith, eq_iff crew_id k))
  others_stay r (sent_away offline e) k other = rw e (client_at-left crew_id k d)

  self_moved :
      client_at crew_id (arrive crew_id cab_id d) ≡ set_cabin_id cab_id (client_at crew_id d)
  self_moved = moved_client crew_id cab_id d crew_id ∙ ground (arith, eq_refl crew_id)

  pub same_name :
      (r : Deck × List Sent) → Change crew_id cab_id d r → name_of crew_id r.0 ≡ name_of crew_id d
  same_name r (refused online e) =
      rw e
        (ap (λ (c : ClientInfo). c.c_username) (index-touch crew_id crew_id no_client d.client_map))
  same_name r (moved online e) = rw e (ap (λ (c : ClientInfo). c.c_username) self_moved)
  same_name r (sent_away offline e) =
      rw e (ap (λ (c : ClientInfo). c.c_username) (client_at-left crew_id crew_id d))

  -- The cabins' histories follow the client, from where it is said to be if it is online.
  pub follows_client :
      (r : Deck × List Sent)
      → Change crew_id cab_id d r
      → (o : Bool) → ((client_at crew_id d).c_online ≡ true → o ≡ true)
      → (c : CabinId)
      → present (name_of crew_id d) (received c r.1) (o && ((client_at crew_id d).curr_cabin == c))
        ≡ is_in c crew_id r.0
  unfolding present present_after received
  follows_client r (refused online e) o agrees c =
      rw (e, agrees online) (ground (arith, index-touch crew_id crew_id no_client d.client_map))
  follows_client r (moved online e) o agrees c =
      rw e (ground (arith, self_moved, eq_refl (name_of crew_id d)))
  follows_client r (sent_away offline e) o agrees c =
      rw e (ground (arith, client_at-left crew_id crew_id d, eq_refl (name_of crew_id d)))

  pub others_unmentioned :
      (r : Deck × List Sent)
      → Change crew_id cab_id d r
      → (u : String) (c : CabinId) (there : Bool) → u ≢ name_of crew_id d
      → present u (received c r.1) there ≡ there
  unfolding present present_after received
  others_unmentioned r (refused online e) u c there other = rw e
  others_unmentioned r (moved online e) u c there other =
      rw e (ground (arith, eq_iff (name_of crew_id d) u))
  others_unmentioned r (sent_away offline e) u c there other =
      rw e (ground (arith, eq_iff (name_of crew_id d) u))

  pub whole_pieces :
      (r : Deck × List Sent)
      → Change crew_id cab_id d r
      → (c : CabinId) → all_whole (received c r.1) ≡ true
  unfolding received
  whole_pieces r (refused online e) c = rw e
  whole_pieces r (moved online e) c = rw e (ground arith)
  whole_pieces r (sent_away offline e) c = rw e (ground arith)
