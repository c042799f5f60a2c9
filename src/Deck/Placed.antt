-- ===== src/Deck/Placed.antt =====
-- Where the clients of the ship deck are (src/server/Shipdeck.cpp): in no cabin, or in a cabin that
-- is registered.
use pirate_servers.Base.{
  ◌≡◌, refl, Option, none, some, String, [], ◌∷◌, true, false, arith, ◌||◌, ◌==◌, eq_iff,
  if◌then◌else◌, Bool,
}
use pirate_servers.Base.Map.{Map, contains, index, index-touch, insert, lookup, lookup-insert}
use pirate_servers.Base.Word.{inc32}
use pirate_servers.Base.Outcome.{ok}
use pirate_servers.Wire.{Message}
use pirate_servers.Defines.{
  ClientId, CabinId, ServerId, CabinInfo, ClientInfo, no_client, client_info, set_cabin_id,
  set_crew_id, set_server_id, set_offline, cabin_info,
}
use pirate_servers.Deck.{Deck, new_deck, client_at, touch_client, touch_name, cabin_named}
use pirate_servers.Deck.Move.{change_player_cabins, leave_cabin, enter_cabin, modify_client}
use pirate_servers.Deck.Crew.{
  leave, join, show, ping, showall, quit, login, handle_crewmate_input,
  handle_crewmate_input_command, handle_crewmate_input_text,
}
use pirate_servers.Deck.Services.{
  register, add_registered, forward, handle_services_cabins_input, handle_services_ships_input,
}
use pirate_servers.Deck.Keeps.{Keeps, keeps_rules}
use pirate_servers.Deck.Count.{contains-count_players}
use pirate_servers.Deck.Count.Moves.{contains-leave_cabin, client_map-leave_cabin}
use pirate_servers.Deck.Reach.{Reach, start, crew, cabins, ships}

abbrev pub in_place : CabinId → Map CabinInfo → Bool
in_place cab_id m = (cab_id == "") || contains cab_id m

abbrev pub IsPlaced : ClientId → Deck → Type 0
IsPlaced k d = in_place (client_at k d).curr_cabin d.cabin_id_to_info ≡ true

pub index-insert :
    (crew_id k : ClientId) (client : ClientInfo) (m : Map ClientInfo)
    → index k no_client (insert crew_id client m)
      ≡ (if crew_id == k then client else index k no_client m)
index-insert crew_id k client m = ground (arith, eq_iff crew_id k, lookup-insert crew_id k client m)

if-IsPlaced :
    (b : Bool) (x y : ClientInfo) (m : Map CabinInfo)
    → in_place x.curr_cabin m ≡ true
    → in_place y.curr_cabin m ≡ true
    → in_place (if b then x else y).curr_cabin m ≡ true
if-IsPlaced true x y m hx hy = hx
if-IsPlaced false x y m hx hy = hy

module _ (k : ClientId) where
  touch_client-IsPlaced :
      (crew_id : ClientId) (d : Deck) → IsPlaced k d → IsPlaced k (touch_client crew_id d)
  touch_client-IsPlaced crew_id d h = rw (index-touch crew_id k no_client d.client_map) h

  leave_cabin-IsPlaced :
      (cab_id : CabinId) (d : Deck) → IsPlaced k d → IsPlaced k (leave_cabin cab_id d)
  leave_cabin-IsPlaced cab_id d h =
      rw (client_map-leave_cabin cab_id d)
        (ground (arith, contains-leave_cabin cab_id (client_at k d).curr_cabin d))

  enter_cabin-IsPlaced :
      (crew_id : ClientId) (cab_id : CabinId) (d : Deck)
      → contains cab_id d.cabin_id_to_info ≡ true
      → IsPlaced k d
      → IsPlaced k (enter_cabin crew_id cab_id d)
  unfolding enter_cabin
  enter_cabin-IsPlaced crew_id cab_id d registered h =
      rw (index-insert crew_id k (set_cabin_id cab_id (client_at crew_id d)) d.client_map) (
        ground (
          arith,
          eq_iff crew_id k,
          contains-count_players inc32 cab_id cab_id d.cabin_id_to_info registered,
          contains-count_players inc32 (client_at k d).curr_cabin cab_id d.cabin_id_to_info,
        ))

  change_player_cabins-IsPlaced :
      (crew_id : ClientId) (cab_id : CabinId) (d : Deck)
      → IsPlaced k d
      → IsPlaced k (change_player_cabins crew_id cab_id d).0
  unfolding change_player_cabins
  change_player_cabins-IsPlaced crew_id cab_id d h =
      let touched = touch_client-IsPlaced crew_id d h in
      let away =
        leave_cabin-IsPlaced (client_at crew_id d).curr_cabin (touch_client crew_id d) touched in
      ground (
        arith,
        touched,
        away,
        enter_cabin-IsPlaced crew_id cab_id
            (leave_cabin (client_at crew_id d).curr_cabin (touch_client crew_id d)),
      )

  module _ (crew_id : ClientId) (d : Deck) (h : IsPlaced k d) where
    leave-IsPlaced : IsPlaced k (leave crew_id d).0
    unfolding leave
    leave-IsPlaced =
        let touched = touch_client-IsPlaced crew_id (touch_name d.default_cabin d) h in
        ground (
          arith,
          touched,
          change_player_cabins-IsPlaced crew_id (cabin_named d.default_cabin d)
              (touch_client crew_id (touch_name d.default_cabin d)) touched,
        )

    join-IsPlaced : (cabin_name : String) → IsPlaced k (join crew_id cabin_name d).0
    unfolding join
    join-IsPlaced cabin_name =
        let touched = touch_client-IsPlaced crew_id (touch_name cabin_name d) h in
        ground (
          arith,
          touched,
          change_player_cabins-IsPlaced crew_id (cabin_named cabin_name d)
              (touch_client crew_id (touch_name cabin_name d)) touched,
        )

    show-IsPlaced : (s_id : ServerId) → IsPlaced k (show s_id crew_id d).0
    unfolding show
    show-IsPlaced s_id = ground (arith, touch_client-IsPlaced crew_id d h)

    quit-IsPlaced : IsPlaced k (quit crew_id d).0
    unfolding quit
    quit-IsPlaced = change_player_cabins-IsPlaced crew_id "" (modify_client crew_id set_offline d) (
        ground (
          arith,
          eq_iff crew_id k,
          index-insert crew_id k (set_offline (client_at crew_id d)) d.client_map,
        ))

    login-IsPlaced :
        (visit : Map CabinInfo → Map CabinInfo) (s_id : ServerId) (username password : String)
        → IsPlaced k (login visit s_id crew_id username password d).0
    unfolding login
    login-IsPlaced visit s_id username password = change_player_cabins-IsPlaced crew_id _ _ (
        rw
          (index-insert crew_id k
            (set_crew_id crew_id (set_server_id s_id (client_info username password))) d.client_map)
          (if-IsPlaced (crew_id == k) _ _ d.cabin_id_to_info refl h))

  ruleset place_rules = (
    keeps_rules, leave-IsPlaced, join-IsPlaced, show-IsPlaced, quit-IsPlaced, login-IsPlaced,
    touch_client-IsPlaced,
  )

  pub crew-IsPlaced :
      (visit : Map CabinInfo → Map CabinInfo) (input : Message) (d : Deck)
      → IsPlaced k d
      → Keeps (IsPlaced k) (handle_crewmate_input visit input d)
  unfolding handle_crewmate_input handle_crewmate_input_command handle_crewmate_input_text ping
      showall
  crew-IsPlaced visit input d h = search place_rules depth 25

  add_registered-IsPlaced :
      (reply : Message) (d d' : Deck)
      → add_registered reply d ≡ ok d'
      → IsPlaced k d
      → IsPlaced k d'
  unfolding add_registered
  add_registered-IsPlaced [] d d' e h = cc
  add_registered-IsPlaced (g ∷ []) d d' e h = cc
  add_registered-IsPlaced (g ∷ t ∷ []) d d' e h = cc
  add_registered-IsPlaced (g ∷ t ∷ desc ∷ rest) d d' e h =
      let c = (client_at k d).curr_cabin in
      ground (
        arith,
        eq_iff g c,
        lookup-insert g c (record (cabin_info t desc) { g_id = g; curr_playing = 0 })
            d.cabin_id_to_info,
      )

  register-IsPlaced :
      (input : Message) (next : Option Message) (d : Deck)
      → IsPlaced k d
      → Keeps (IsPlaced k) (register input next d)
  unfolding register
  register-IsPlaced input none d h = search keeps_rules depth 20
  register-IsPlaced input (some reply) d h = search (keeps_rules, add_registered-IsPlaced) depth 20

  pub services-IsPlaced :
      (input : Message) (next : Option Message) (d : Deck)
      → IsPlaced k d
      → Keeps (IsPlaced k) (handle_services_cabins_input input next d)
  unfolding handle_services_cabins_input forward
  services-IsPlaced input next d h = search (place_rules, register-IsPlaced) depth 25

  pub ships-IsPlaced :
      (input : Message) (d : Deck)
      → IsPlaced k d
      → Keeps (IsPlaced k) (handle_services_ships_input input d)
  unfolding handle_services_ships_input
  ships-IsPlaced input d h = search keeps_rules

pub start-IsPlaced : (k : ClientId) → IsPlaced k new_deck
unfolding lookup
start-IsPlaced k = refl

-- After any messages, a client is in no cabin or in a cabin that is registered.
pub Reach-IsPlaced :
    {visit : Map CabinInfo → Map CabinInfo} {d : Deck} (k : ClientId) → Reach visit d → IsPlaced k d
Reach-IsPlaced k start = start-IsPlaced k
Reach-IsPlaced k (crew input r e) = (crew-IsPlaced k _ input _ (Reach-IsPlaced k r)).at _ _ e
Reach-IsPlaced k (cabins input next r e) =
    (services-IsPlaced k input next _ (Reach-IsPlaced k r)).at _ _ e
Reach-IsPlaced k (ships input r e) = (ships-IsPlaced k input _ (Reach-IsPlaced k r)).at _ _ e
