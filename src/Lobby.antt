-- ===== src/Lobby.antt =====
-- The lobby: include/server/LobbyCabin.hpp and src/server/LobbyCabin.cpp.
pub mod Refinement
pub mod Order
pub mod Thread
pub mod Tests
use pirate_servers.Base.{String, Bool, true, false, List, [], ◌∷◌, map, ◌||◌, ◌==◌, if◌then◌else◌}
use pirate_servers.Base.Outcome.{Outcome, ok, ◌>>=◌}
use pirate_servers.Wire.{Message, frame}
use pirate_servers.Defines.{make_zmq_msg}

-- `users`, a set, as a list of its elements.
pub record Lobby : Type 0 where
  pub users : List String

abbrev pub new_lobby : Lobby
new_lobby = record { users = [] }

-- `contains`, `insert` and `erase` of `std::unordered_set`.
unfoldable pub has : String → List String → Bool
has u [] = false
has u (v ∷ users) = (v == u) || has u users

unfoldable pub insert : String → List String → List String
insert u users = if has u users then users else u ∷ users

unfoldable pub erase : String → List String → List String
erase u [] = []
erase u (v ∷ users) = if v == u then users else v ∷ erase u users

-- What one user of the lobby is sent.
abbrev pub send_text : String → String → String → Message
send_text username text user =
    make_zmq_msg "SEND"
    ∷ make_zmq_msg "TEXT"
    ∷ make_zmq_msg user
    ∷ make_zmq_msg username
    ∷ text
    ∷ []

-- `visit` is the order in which the standard library's set yields its elements.
unfoldable pub handle_shipdeck_input :
    (List String → List String) → Message → Lobby → Outcome (Lobby × List Message)
handle_shipdeck_input visit input l = do
  input_type ← frame input 0
  if input_type == "TEXT"
      then (do
        username ← frame input 1
        text ← frame input 2
        ok (l, map (send_text username text) (visit l.users)))
      else if input_type == "COMMAND"
      then ok (l, [])
      else if input_type == "SHIPDECK"
      then ok (l, [])
      else if input_type == "JOIN"
      then (do username ← frame input 1; ok (record l { users = insert username l.users }, []))
      else if input_type == "DISCONNECT"
      then (do username ← frame input 1; ok (record l { users = erase username l.users }, []))
      else ok (l, [])
