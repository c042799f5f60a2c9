-- ===== src/System/Follow/Services.antt =====
-- A message of a cabin or of another ship (src/server/Shipdeck.cpp) keeps the cabins' histories in step
-- with the clients.
use pirate_servers.Base.{String, ◌≡◌, refl, ap, Option, none, some, List, [], ◌∷◌, ◌++◌, arith}
use pirate_servers.Base.Map.{Map, index, index-touch, touch}
use pirate_servers.Base.Outcome.{ok}
use pirate_servers.Wire.{Message}
use pirate_servers.Defines.{ClientId, CabinId, ClientInfo, no_client}
use pirate_servers.Deck.{Deck, Sent, to_cabins, to_server, touch_client}
use pirate_servers.Deck.Keeps.{Gives, Gives-ok, keeps_rules}
use pirate_servers.Lobby.Refinement.{present, present_after}
use pirate_servers.System.Follow.{received, IsFollowed}
use pirate_servers.Deck.Services.{
  add_registered, register, forward, handle_services_cabins_input, handle_services_ships_input,
}
use pirate_servers.System.Follow.Handlers.{
  IsQuiet, still-IsFollowed, silent-IsQuiet, to_server-IsQuiet,
}

reply-IsQuiet : (c g_id : CabinId) → IsQuiet (to_cabins (c ∷ "SHIP" ∷ "SUCCESS" ∷ g_id ∷ []) ∷ [])
unfolding present present_after received
reply-IsQuiet c g_id = record {
  unchanged = λ u c' there. ground arith;
  pieces = λ c'. ground arith;
}

module _ (d : Deck) (total : List Sent) (h : IsFollowed d total) where
  abbrev Goes : Deck → List Sent → Type 0
  Goes d' out = IsFollowed d' (total ++ out)

  silent-IsFollowed : IsFollowed d (total ++ [])
  silent-IsFollowed = still-IsFollowed d d total [] h (λ k. refl) (λ u _. refl) silent-IsQuiet

  replied-IsFollowed :
      (c : CabinId) → IsFollowed d (total ++ (to_cabins (c ∷ "SHIP" ∷ "SUCCESS" ∷ c ∷ []) ∷ []))
  replied-IsFollowed c =
      still-IsFollowed d d total _ h (λ k. refl) (λ u _. refl) (reply-IsQuiet c c)

  add_registered_clients :
      (reply : Message) (d' : Deck)
      → add_registered reply d ≡ ok d'
      → (d'.client_map ≡ d.client_map) × (d'.crew_name_to_id ≡ d.crew_name_to_id)
  unfolding add_registered
  add_registered_clients [] d' e = cc
  add_registered_clients (g ∷ []) d' e = cc
  add_registered_clients (g ∷ t ∷ []) d' e = cc
  add_registered_clients (g ∷ t ∷ desc ∷ rest) d' e = ground arith

  registered-IsFollowed :
      (c : CabinId) (reply : Message) (d' : Deck)
      → add_registered reply d ≡ ok d'
      → IsFollowed d' (total ++ (to_cabins (c ∷ "SHIP" ∷ "SUCCESS" ∷ c ∷ []) ∷ []))
  registered-IsFollowed c reply d' e =
      let (clients, names) = add_registered_clients reply d' e in
      still-IsFollowed d d' total _ h
        (λ k. ap (λ (m : Map ClientInfo). index k no_client m) clients)
        (λ u _. ap (λ (m : Map ClientId). index u "" m) names) (reply-IsQuiet c c)

  register-Gives : (input : Message) (next : Option Message) → Gives Goes (register input next d)
  unfolding register
  register-Gives input none = search (keeps_rules, silent-IsFollowed, replied-IsFollowed) depth 20
  register-Gives input (some reply) =
      search (keeps_rules, silent-IsFollowed, registered-IsFollowed) depth 20

  looked_up-IsFollowed :
      (crew_id : ClientId) (u : String) (out : List Sent)
      → IsQuiet out
      → IsFollowed
          (touch_client crew_id (record d { crew_name_to_id = touch u "" d.crew_name_to_id }))
          (total ++ out)
  looked_up-IsFollowed crew_id u out quiet =
      still-IsFollowed d
        (touch_client crew_id (record d { crew_name_to_id = touch u "" d.crew_name_to_id })) total
        out h (λ k. index-touch crew_id k no_client d.client_map)
        (λ v _. index-touch u v "" d.crew_name_to_id) quiet

  forward-Gives : (input : Message) → Gives Goes (forward input d)
  unfolding forward
  forward-Gives input =
      search (keeps_rules, looked_up-IsFollowed, silent-IsQuiet, to_server-IsQuiet) depth 25

  pub cabins-Gives :
      (input : Message) (next : Option Message)
      → Gives Goes (handle_services_cabins_input input next d)
  unfolding handle_services_cabins_input
  cabins-Gives input next =
      search (keeps_rules, register-Gives, forward-Gives, silent-IsFollowed) depth 25

  pub ships-Gives : (input : Message) → Gives Goes (handle_services_ships_input input d)
  unfolding handle_services_ships_input
  ships-Gives input =
      Gives-ok (d, to_server input ∷ [])
        (still-IsFollowed d d total _ h (λ k. refl) (λ u _. refl) (to_server-IsQuiet input))
