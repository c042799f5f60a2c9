-- ===== src/Deck/Reach.antt =====
-- The decks that the handlers of src/server/Shipdeck.cpp lead to, one message at a time.
use pirate_servers.Base.{◌≡◌, ◌≢◌, ◌%◌, refl, Option, some, List, true}
use pirate_servers.Base.Map.{Map, lookup, tally}
use pirate_servers.Base.Word.{u32_mod}
use pirate_servers.Base.Outcome.{ok}
use pirate_servers.Wire.{Message, frame}
use pirate_servers.Defines.{ClientId, CabinId, CabinInfo}
use pirate_servers.Deck.{Deck, Sent, new_deck, client_at}
use pirate_servers.Deck.Crew.{handle_crewmate_input}
use pirate_servers.Deck.Services.{handle_services_cabins_input, handle_services_ships_input}
use pirate_servers.Deck.Keeps.{Keeps, keeps_rules}
use pirate_servers.Deck.Count.{IsCounted, occupancy, playing}
use pirate_servers.Deck.Count.Steps.{
  handle_crewmate_input-Keeps, handle_services_cabins_input-Keeps,
}

-- Any messages at all. A handler that faults leads nowhere.
pub data Reach (visit : Map CabinInfo → Map CabinInfo) : Deck → Type 0 where
  start : Reach visit new_deck
  crew :
      {d d' : Deck} {sent : List Sent} (input : Message)
      → Reach visit d
      → handle_crewmate_input visit input d ≡ ok (d', sent)
      → Reach visit d'
  cabins :
      {d d' : Deck} {sent : List Sent} (input : Message) (next : Option Message)
      → Reach visit d
      → handle_services_cabins_input input next d ≡ ok (d', sent)
      → Reach visit d'
  ships :
      {d d' : Deck} {sent : List Sent} (input : Message)
      → Reach visit d
      → handle_services_ships_input input d ≡ ok (d', sent)
      → Reach visit d'

-- No message of a client that has quit, and to a registration the cabin itself answers first.
pub data Orderly (visit : Map CabinInfo → Map CabinInfo) : Deck → Type 0 where
  start : Orderly visit new_deck
  crew :
      {d d' : Deck} {sent : List Sent} (input : Message)
      → Orderly visit d
      → ((crew_id : ClientId) → frame input 1 ≡ ok crew_id → (client_at crew_id d).c_online ≡ true)
      → handle_crewmate_input visit input d ≡ ok (d', sent)
      → Orderly visit d'
  cabins :
      {d d' : Deck} {sent : List Sent} (input : Message) (next : Option Message)
      → Orderly visit d
      → ((reply : Message) → next ≡ some reply → frame reply 0 ≡ frame input 0)
      → handle_services_cabins_input input next d ≡ ok (d', sent)
      → Orderly visit d'
  ships :
      {d d' : Deck} {sent : List Sent} (input : Message)
      → Orderly visit d
      → handle_services_ships_input input d ≡ ok (d', sent)
      → Orderly visit d'

ships-Keeps :
    (c : CabinId) (input : Message) (d : Deck)
    → IsCounted c d
    → Keeps (IsCounted c) (handle_services_ships_input input d)
unfolding handle_services_ships_input
ships-Keeps c input d h = search keeps_rules

empty-IsCounted : (c : CabinId) → IsCounted c new_deck
unfolding lookup tally
empty-IsCounted c = refl

module _ {visit : Map CabinInfo → Map CabinInfo} where
  -- After orderly messages, in any order and number, the count that the deck keeps for a cabin is
  -- the number of online clients in that cabin, modulo 2^32.
  pub Orderly-IsCounted :
      {d : Deck} (c : CabinId)
      → c ≢ ""
      → Orderly visit d
      → playing c d.cabin_id_to_info ≡ occupancy c d.client_map % u32_mod
  Orderly-IsCounted c named start = empty-IsCounted c
  Orderly-IsCounted c named (crew input r online e) =
      (handle_crewmate_input-Keeps c named visit input _ online (Orderly-IsCounted c named r)).at _
        _ e
  Orderly-IsCounted c named (cabins input next r own e) =
      (handle_services_cabins_input-Keeps c named visit input next _ own
          (Orderly-IsCounted c named r)).at
        _ _ e
  Orderly-IsCounted c named (ships {d = d} input r e) =
      (ships-Keeps c input d (Orderly-IsCounted c named r)).at _ _ e
