-- ===== src/Programs.antt =====
-- The main program of the server, server_main.cpp, up to the wait for its end.
pub mod Wiring
pub mod Shutdown
pub mod Tests
use pirate_servers.Base.{String, Bool, true, Option, none, some, List, [], ◌∷◌, if◌then◌else◌}
use pirate_servers.Base.Integer.{ℤ, pos, stoi}
use pirate_servers.Base.Outcome.{Outcome, ok, err}
use pirate_servers.Defines.{address}
use pirate_servers.Deck.Life as DeckLife
use pirate_servers.Server.Life as ServerLife

-- A thread of `main`: the arguments of the constructor of the lobby that it runs, and whether it can
-- be joined.
pub record LobbyStart : Type 0 where
  pub title : String
  pub description : String
  pub shipdeck_endpoint : String
  pub control_endpoint : String
  pub joinable : Bool

pub record Parts : Type 0 where
  pub deck : DeckLife.Running
  pub lobbies : List LobbyStart
  pub server : ServerLife.Running

-- How the server's program begins: it tells its usage and fails; it catches an exception; the process
-- ends by `std::terminate`; or its parts run.
pub data ServerMain : Type 0 where
  usage caught terminated : ServerMain
  running : Parts → ServerMain

abbrev pub local_address : String
local_address = "tcp://localhost:"

abbrev pub shipdeck_port : ℤ
shipdeck_port = pos 6003

-- An exception leaves the block of `main`: what was constructed in it is destroyed before the
-- exception is caught, and the destructor of a thread that can be joined calls `std::terminate`.
unfoldable pub unwinding : List LobbyStart → ServerMain
unwinding [] = caught
unwinding (lobby ∷ threads) = if lobby.joinable then terminated else unwinding threads

-- The two threads of lobbies.
abbrev pub cabins_threads : DeckLife.Running → List LobbyStart
cabins_threads deck =
    record {
      title = "Default";
      description = "Testing out the cabins";
      shipdeck_endpoint = DeckLife.get_cabins_router_endpoint deck;
      control_endpoint = DeckLife.get_control_pub_endpoint deck;
      joinable = true;
    }
    ∷ record {
      title = "Lobby2";
      description = "Come join me bruh bruhssss";
      shipdeck_endpoint = DeckLife.get_cabins_router_endpoint deck;
      control_endpoint = DeckLife.get_control_pub_endpoint deck;
      joinable = true;
    }
    ∷ []

module _ (bind_deck : DeckLife.Socket → String → Option String)
    (bind_server : ServerLife.Socket → String → Option String) (connects : String → Bool) where
  -- From the ports on: the threads of the lobbies run already.
  unfoldable pub start_server : DeckLife.Running → String → Option ℤ → Option ℤ → ServerMain
  start_server deck name none crew_port = unwinding (cabins_threads deck)
  start_server deck name (some ship_port) none = unwinding (cabins_threads deck)
  start_server deck name (some ship_port) (some crew_port) =
      elim (ServerLife.new_server bind_server connects (address local_address shipdeck_port) name
        ship_port crew_port) [
          | err fault ↦ unwinding (cabins_threads deck)
          | ok server ↦
              running (record { deck = deck; lobbies = cabins_threads deck; server = server })
        ]

  -- The program with the arguments that stand behind its name.
  unfoldable pub server_main : List String → ServerMain
  server_main (name ∷ ship_port ∷ crew_port ∷ []) =
      elim (DeckLife.ship_deck bind_deck local_address shipdeck_port) [
        | err fault ↦ unwinding []
        | ok deck ↦ start_server deck name (stoi ship_port) (stoi crew_port)
      ]
  server_main _ = usage
