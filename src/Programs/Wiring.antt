-- ===== src/Programs/Wiring.antt =====
-- How the parts that server_main.cpp starts are connected.
use pirate_servers.Base.{String, Bool, ◌≡◌, refl, Option, none, some, [], ◌∷◌, arith, inl, inr}
use pirate_servers.Base.Integer.{stoi, ℤ}
use pirate_servers.Base.Outcome.{ok, Outcome-cases}
use pirate_servers.Defines.{address}
use pirate_servers.Deck.Life as DeckLife
use pirate_servers.Server.Life as ServerLife
use pirate_servers.Programs.{
  cabins_threads, local_address, shipdeck_port, server_main, start_server, running, unwinding,
  Parts, LobbyStart,
}

module _ (bind : DeckLife.Socket → String → Option String) where
  pub ship_deck_bound :
      (name : String) (port : ℤ) (r : DeckLife.Running)
      → DeckLife.ship_deck bind name port ≡ ok r
      → (bind DeckLife.server_router (address name port) ≡ some r.server_router_endpoint)
        × (bind DeckLife.cabins_router "tcp://localhost:*" ≡ some r.cabins_router_endpoint)
        × (bind DeckLife.control_pub "tcp://localhost:*" ≡ some r.control_pub_endpoint)
  unfolding DeckLife.ship_deck
  ship_deck_bound name port r e = (ground arith, ground arith, ground arith)

module _ (bind : ServerLife.Socket → String → Option String) (connects : String → Bool) where
  pub new_server_bound :
      (deck_addr name : String) (ship_port crew_port : ℤ) (r : ServerLife.Running)
      → ServerLife.new_server bind connects deck_addr name ship_port crew_port ≡ ok r
      → (r.shipdeck_addr ≡ deck_addr)
        × (bind ServerLife.ship_router (address name ship_port) ≡ some r.ship_router_endpoint)
        × (bind ServerLife.client_router (address name crew_port) ≡ some r.client_router_endpoint)
  unfolding ServerLife.new_server
  new_server_bound deck_addr name ship_port crew_port r e =
      (ground arith, ground arith, ground arith)

module _ (bind_deck : DeckLife.Socket → String → Option String)
    (bind_server : ServerLife.Socket → String → Option String) (connects : String → Bool) where
  -- The lobby's sockets connect to endpoints that the ship deck's sockets were bound to.
  pub IsJoined : LobbyStart → Type 0
  IsJoined lobby =
      (bind_deck DeckLife.cabins_router "tcp://localhost:*" ≡ some lobby.shipdeck_endpoint)
      × (bind_deck DeckLife.control_pub "tcp://localhost:*" ≡ some lobby.control_endpoint)

  pub IsServing : String → String → String → ServerLife.Running → Type 0
  IsServing name ship crew server =
      (ship_port crew_port : ℤ) × (stoi ship ≡ some ship_port)
      × (stoi crew ≡ some crew_port)
      × (bind_server ServerLife.ship_router (address name ship_port)
          ≡ some server.ship_router_endpoint)
      × (bind_server ServerLife.client_router (address name crew_port)
          ≡ some server.client_router_endpoint)

  started :
      (name : String) (deck : DeckLife.Running) (ship_port crew_port : Option ℤ) (parts : Parts)
      → start_server bind_deck bind_server connects deck name ship_port crew_port ≡ running parts
      → (ship crew : ℤ) × (ship_port ≡ some ship)
        × (crew_port ≡ some crew)
        × (ServerLife.new_server bind_server connects
              (address local_address shipdeck_port)
              name
              ship
              crew
            ≡ ok parts.server)
        × (parts.deck ≡ deck)
        × (parts.lobbies ≡ cabins_threads deck)
  unfolding start_server unwinding
  started name deck none crew_port parts e = cc
  started name deck (some ship) none parts e = cc
  started name deck (some ship) (some crew) parts e =
      elim (Outcome-cases (
        ServerLife.new_server bind_server connects (address local_address shipdeck_port) name ship
          crew)) [
            | inl (server, made) ↦
                (ship, crew, refl, refl, ground arith, ground arith, ground arith)
            | inr (fault, failed) ↦ ground arith
          ]

  -- If the server's program with three arguments gets all its parts to run, the server's
  -- `shipdeck_dealer` connects to the address that the ship deck's `server_router` was bound to, both
  -- lobbies connect to what its `cabins_router` and its `control_pub` were bound to, and the server's
  -- two routers are bound to the first argument with the second and third read as ports.
  pub server_main_joins :
      (name ship crew : String) (parts : Parts)
      → server_main bind_deck bind_server connects (name ∷ ship ∷ crew ∷ []) ≡ running parts
      → (bind_deck DeckLife.server_router parts.server.shipdeck_addr
          ≡ some parts.deck.server_router_endpoint)
        × ((first second : LobbyStart) × (parts.lobbies ≡ first ∷ second ∷ [])
            × IsJoined first
            × IsJoined second)
        × IsServing name ship crew parts.server
  unfolding server_main unwinding IsJoined IsServing
  server_main_joins name ship crew parts e =
      elim (Outcome-cases (DeckLife.ship_deck bind_deck local_address shipdeck_port)) [
        | inl (deck, made) ↦
            let (at_router, at_cabins, at_control) =
              ship_deck_bound bind_deck local_address shipdeck_port deck made in
            let (ship_port, crew_port, ship_read, crew_read, served, same, lobbies) =
              started name deck (stoi ship) (stoi crew) parts (ground arith) in
            let (to_deck, at_ships, at_crew) =
              new_server_bound bind_server connects (address local_address shipdeck_port) name
                ship_port crew_port parts.server served in
            (
              rw (to_deck, same, at_router),
              (_, _, lobbies, (at_cabins, at_control), (at_cabins, at_control)),
              (ship_port, crew_port, ship_read, crew_read, at_ships, at_crew),
            )
        | inr (fault, failed) ↦ ground arith
      ]
