-- ===== src/System/Showall.antt =====
-- `/showall` from end to end: what the ship deck (src/server/Shipdeck.cpp) sends of its cabins, in
-- whatever order its map yields them, and what the client (src/client/Client.cpp) shows.
use mathlib.Core.List.{Perm}
use mathlib.Core.List.Perm as Permutation
use pirate_servers.Base.{
  ℕ, ◌+◌, ◌<◌, String, ◌≡◌, refl, ap, Bool, true, List, [], ◌∷◌, map, length, arith,
}
use pirate_servers.Base.Map.{Map, contains}
use pirate_servers.Base.Outcome.{ok}
use pirate_servers.Base.Word.{u64_mod}
use pirate_servers.Wire.{Message}
use pirate_servers.Wire.Spans.{subspan_rest}
use pirate_servers.Defines.{CabinInfo, zmq_info}
use pirate_servers.Deck.{Deck, to_server}
use pirate_servers.Deck.Crew.{
  all_infos, showall, handle_crewmate_input, handle_crewmate_input_command,
}
use pirate_servers.Client.{Client}
use pirate_servers.Client.Ship.{labelled, handle_ship_input, handle_ship_input_info}
use pirate_servers.Client.Tasks.{core_step}

-- Frames, three at a time.
pub in_threes : Message → List Message
in_threes (title ∷ description ∷ players ∷ rest) =
    (title ∷ description ∷ players ∷ []) ∷ in_threes rest
in_threes _ = []

-- The infos of the cabins of a map.
pub infos : Map CabinInfo → List Message
infos m = map (λ entry. zmq_info entry.1) m

in_threes-all_infos : (m : Map CabinInfo) → in_threes (all_infos m) ≡ infos m
unfolding in_threes all_infos infos zmq_info
in_threes-all_infos [] = refl
in_threes-all_infos ((k, cabin) ∷ m) = ap (◌∷◌ (zmq_info cabin)) (in_threes-all_infos m)

info_shown :
    (sends : ℕ → Bool) (c : Client) (frames : Message)
    → length frames + 2 < u64_mod
    → core_step sends ("SHIP" ∷ "INFO" ∷ frames) c ≡ ok (c, labelled "SHIP INFO: " frames)
unfolding core_step handle_ship_input handle_ship_input_info
info_shown sends c frames fits = ground (arith, subspan_rest ("SHIP" ∷ "INFO" ∷ frames) 2)

-- A client that is known asks for all cabins: the deck stays as it is and sends one message to the
-- client, whose frames behind the header, three at a time, are the infos of the registered cabins,
-- each once, in some order, and the client shows these frames as they are; for any order in which the
-- deck's map yields its entries, and fewer than 2^64 - 2 frames.
pub showall_journey :
    (visit : Map CabinInfo → Map CabinInfo) (s_id crew_id sender : String) (rest : Message)
    (d : Deck) (sends : ℕ → Bool) (c : Client)
    → ((m : Map CabinInfo) → Perm (visit m) m)
    → contains crew_id d.client_map ≡ true
    → length (all_infos (visit d.cabin_id_to_info)) + 2 < u64_mod
    → (frames : Message) × (handle_crewmate_input visit
          (s_id ∷ crew_id ∷ sender ∷ "COMMAND" ∷ "/showall" ∷ rest)
          d
        ≡ ok (d, to_server (s_id ∷ crew_id ∷ "SHIP" ∷ "INFO" ∷ frames) ∷ []))
      × Perm (in_threes frames) (infos d.cabin_id_to_info)
      × (core_step sends ("SHIP" ∷ "INFO" ∷ frames) c ≡ ok (c, labelled "SHIP INFO: " frames))
unfolding handle_crewmate_input handle_crewmate_input_command showall infos
showall_journey visit s_id crew_id sender rest d sends c each known fits = (
  all_infos (visit d.cabin_id_to_info),
  rw known refl,
  rw (in_threes-all_infos (visit d.cabin_id_to_info))
      (Permutation.map (λ entry. zmq_info entry.1) (each d.cabin_id_to_info)),
  info_shown sends c (all_infos (visit d.cabin_id_to_info)) fits,
)
