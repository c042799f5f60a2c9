-- ===== src/Client.antt =====
-- The client: include/client/Client.hpp and src/client/Client.cpp. A handler returns the client and
-- what it does outside: lines on the console and messages on the `dealer` socket.
pub mod Ship
pub mod User
pub mod Tasks
pub mod Life
pub mod Threads
pub mod Program
pub mod Commands
pub mod Console
pub mod Quiet
pub mod Tests
use Prim.Native.String.{◌++◌ as concat}
use pirate_servers.Base.{String, Bool, true, List, [], ◌∷◌, length}
use pirate_servers.Base.Text.{size}
use pirate_servers.Defines.Decimal.{to_string}
use pirate_servers.Base.Outcome.{Outcome, ok, ◌>>=◌}
use pirate_servers.Wire.{Message}

pub record Client : Type 0 where
  pub username : String
  pub password : String
  pub server_addr : String
  pub alive : Bool

abbrev pub new_client : String → String → String → Client
new_client username password server_addr = record {
  username = username;
  password = password;
  server_addr = server_addr;
  alive = true;
}

pub data Effect : Type 0 where
  printed : String → Effect
  sent : Message → Effect

-- `print_multipart_msg`, which does the same for each of its three kinds of argument. `str` is the text
-- that the library's `message_t::str` makes of a message.
unfoldable pub print_multipart_msg : (String → String) → Message → List Effect
unfolding size
print_multipart_msg str mp = printed (concat (to_string (length mp)) " parts:\n") ∷ parts mp
  where
    parts : Message → List Effect
    parts [] = []
    parts (msg ∷ rest) =
        printed (concat (to_string (size msg)) " bytes:\n\n")
        ∷ printed (concat (str msg) "\n")
        ∷ parts rest
