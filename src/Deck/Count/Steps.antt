-- ===== src/Deck/Count/Steps.antt =====
-- Every handler of src/server/Shipdeck.cpp keeps the count of players, for a sender that is online.
use pirate_servers.Base.{
  String, ◌≡◌, ◌≢◌, refl, Option, none, some, arith, eq_iff, true, ◌∙◌, and-not_absent, [], ◌∷◌,
  false,
}
use pirate_servers.Base.Map.{Map, index-touch, contains, lookup-insert}
use pirate_servers.Base.Outcome.{ok}
use pirate_servers.Wire.{Message, frame}
use pirate_servers.Defines.{
  ClientId, CabinId, ServerId, CabinInfo, cabin_info, client_info, no_client, set_crew_id,
  set_server_id,
}
use pirate_servers.Deck.{Deck, client_at, touch_client, touch_name, cabin_named}
use pirate_servers.Deck.Move.{change_player_cabins}
use pirate_servers.Deck.Crew.{
  leave, join, show, ping, showall, login, handle_crewmate_input, handle_crewmate_input_command,
  handle_crewmate_input_text,
}
use pirate_servers.Deck.Services.{register, add_registered, forward, handle_services_cabins_input}
use pirate_servers.Deck.Count.{IsCounted, occupancy-insert, occupancy-touch}
use pirate_servers.Deck.Count.Moves.{change_player_cabins-IsCounted}
use pirate_servers.Deck.Keeps.{Keeps, Gives-bind, keeps_rules}
use pirate_servers.Deck.Count.Quits.{quit-IsCounted}

module _ (c : CabinId) (named : c ≢ "") where
  touch_client-IsCounted :
      (crew_id : ClientId) (d : Deck) → IsCounted c d → IsCounted c (touch_client crew_id d)
  touch_client-IsCounted crew_id d h = rw (occupancy-touch c named crew_id d.client_map) h

  module _ (crew_id : ClientId) (d : Deck) (online : (client_at crew_id d).c_online ≡ true)
      (h : IsCounted c d) where
    -- The move that follows the accesses of `/leave` and `/join`.
    moved-IsCounted :
        (name : String) (cab_id : CabinId)
        → IsCounted c
            (change_player_cabins crew_id cab_id (touch_client crew_id (touch_name name d))).0
    moved-IsCounted name cab_id =
        change_player_cabins-IsCounted c named crew_id cab_id
          (touch_client crew_id (touch_name name d))
          (rw (index-touch crew_id crew_id no_client d.client_map) online)
          (touch_client-IsCounted crew_id d h)

    leave-IsCounted : IsCounted c (leave crew_id d).0
    unfolding leave
    leave-IsCounted = ground (
      arith,
      moved-IsCounted d.default_cabin (cabin_named d.default_cabin d),
      touch_client-IsCounted crew_id d,
    )

    join-IsCounted : (cabin_name : String) → IsCounted c (join crew_id cabin_name d).0
    unfolding join
    join-IsCounted cabin_name = ground (
      arith,
      moved-IsCounted cabin_name (cabin_named cabin_name d),
      touch_client-IsCounted crew_id d,
    )

    show-IsCounted : (s_id : ServerId) → IsCounted c (show s_id crew_id d).0
    unfolding show
    show-IsCounted s_id = ground (arith, touch_client-IsCounted crew_id d)

module _ (c : CabinId) (named : c ≢ "") (visit : Map CabinInfo → Map CabinInfo) where
  ruleset step_rules =
      (keeps_rules, leave-IsCounted, join-IsCounted, show-IsCounted, quit-IsCounted)

  module _ (input : Message) (d : Deck)
      (online : (crew_id : ClientId)
        → frame input 1 ≡ ok crew_id
        → (client_at crew_id d).c_online ≡ true)
      (h : IsCounted c d) where
    command-IsCounted : Keeps (IsCounted c) (handle_crewmate_input_command visit input d)
    unfolding handle_crewmate_input_command ping showall
    command-IsCounted = search step_rules depth 20

    text-IsCounted : Keeps (IsCounted c) (handle_crewmate_input_text visit input d)
    unfolding handle_crewmate_input_text
    text-IsCounted = search (step_rules, touch_client-IsCounted c named) depth 20

  login-IsCounted :
      (s_id : ServerId) (crew_id : ClientId) (username password : String) (d : Deck)
      → contains crew_id d.client_map ≡ false
      → IsCounted c d
      → IsCounted c (login visit s_id crew_id username password d).0
  unfolding login
  login-IsCounted s_id crew_id username password d fresh h =
      let client = set_crew_id crew_id (set_server_id s_id (client_info username password)) in
      change_player_cabins-IsCounted c named crew_id _ _
        (ground (arith, eq_iff crew_id crew_id, lookup-insert crew_id crew_id client d.client_map))
        (ground (arith, eq_iff "" c, occupancy-insert c named crew_id client d.client_map))

  -- A message of the crew, whatever it says, from a client that is online or not known yet.
  pub handle_crewmate_input-Keeps :
      (input : Message) (d : Deck)
      → ((crew_id : ClientId) → frame input 1 ≡ ok crew_id → (client_at crew_id d).c_online ≡ true)
      → IsCounted c d
      → Keeps (IsCounted c) (handle_crewmate_input visit input d)
  unfolding handle_crewmate_input
  handle_crewmate_input-Keeps input d online h =
      search
        (
          step_rules,
          command-IsCounted input d online h,
          text-IsCounted input d online h,
          login-IsCounted,
          and-not_absent,
        )
        depth 20

  add_registered-IsCounted :
      (cabin_info_reply : Message) (d : Deck) (cab_id : CabinId)
      → frame cabin_info_reply 0 ≡ ok cab_id
      → contains cab_id d.cabin_id_to_info ≡ false
      → IsCounted c d
      → (d' : Deck) → add_registered cabin_info_reply d ≡ ok d'
      → IsCounted c d'
  unfolding add_registered
  add_registered-IsCounted [] d cab_id own fresh h d' e = cc
  add_registered-IsCounted (g ∷ []) d cab_id own fresh h d' e = cc
  add_registered-IsCounted (g ∷ t ∷ []) d cab_id own fresh h d' e = cc
  add_registered-IsCounted (g ∷ t ∷ desc ∷ rest) d cab_id own fresh h d' e = ground (
    arith,
    eq_iff g c,
    lookup-insert g c (record (cabin_info t desc) { g_id = g; curr_playing = 0 })
        d.cabin_id_to_info,
  )

  register-IsCounted :
      (input : Message) (next : Option Message) (d : Deck)
      → ((reply : Message) → next ≡ some reply → frame reply 0 ≡ frame input 0)
      → IsCounted c d
      → Keeps (IsCounted c) (register input next d)
  unfolding register
  register-IsCounted input none d own h = search keeps_rules depth 20
  register-IsCounted input (some reply) d own h = Gives-bind (frame input 2) _ λ user_command _.
      Gives-bind (frame input 0) _ λ cab_id at_0.
        search
          (
            keeps_rules,
            add_registered-IsCounted reply d cab_id (own reply refl ∙ at_0),
            and-not_absent,
          )
          depth 20

  forward-IsCounted :
      (input : Message) (d : Deck) → IsCounted c d → Keeps (IsCounted c) (forward input d)
  unfolding forward
  forward-IsCounted input d h = search (keeps_rules, touch_client-IsCounted c named) depth 20

  pub handle_services_cabins_input-Keeps :
      (input : Message) (next : Option Message) (d : Deck)
      → ((reply : Message) → next ≡ some reply → frame reply 0 ≡ frame input 0)
      → IsCounted c d
      → Keeps (IsCounted c) (handle_services_cabins_input input next d)
  unfolding handle_services_cabins_input
  handle_services_cabins_input-Keeps input next d own h =
      search (keeps_rules, register-IsCounted input next d own h, forward-IsCounted input d h) depth
        20
