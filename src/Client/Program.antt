-- ===== src/Client/Program.antt =====
-- The main program of the client, client_main.cpp, up to its wait for the client's end.
use pirate_servers.Base.{ℕ, String, Bool, Option, List, [], ◌∷◌}
use pirate_servers.Base.Outcome.{Fault, ok, err, too_many_parts, bind_error, connect_error}
use pirate_servers.Wire.{Message}
use pirate_servers.Client.{Effect}
use pirate_servers.Client.Life.{Socket, Running, start_client}

-- How the program begins: it tells its usage and fails; it catches an exception; an assertion or a
-- read behind the end of the ship's reply ends the process; or the client runs.
pub data ClientMain : Type 0 where
  usage caught terminated : ClientMain
  running : Running → List Effect → ClientMain

-- The exceptions of the sockets are those that `main` catches.
unfoldable pub fault_of_main : Fault → ClientMain
fault_of_main too_many_parts = caught
fault_of_main bind_error = caught
fault_of_main connect_error = caught
fault_of_main _ = terminated

-- The program with the arguments that stand behind its name.
unfoldable pub client_main :
    (String → Bool)
    → (Socket → String → Option String)
    → Option ℕ
    → Message
    → List String
    → ClientMain
client_main connects bind res reqs (username ∷ password ∷ server_addr ∷ []) =
    elim (start_client connects bind username password server_addr res reqs) [
      | err fault ↦ fault_of_main fault
      | ok result ↦ running result.0 result.1
    ]
client_main connects bind res reqs _ = usage
