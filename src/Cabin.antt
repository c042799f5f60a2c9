-- ===== src/Cabin.antt =====
-- The part that all cabins share: include/server/Cabin.hpp and src/server/Cabin.cpp. A message that
-- the cabin sends on `shipdeck_dealer` is an item of a list.
pub mod Poll
pub mod Tests
pub mod Loop
use pirate_servers.Base.{Bool, true, false, List, [], ◌∷◌, ◌&&◌, ◌==◌, String, if◌then◌else◌}
use pirate_servers.Base.Outcome.{Outcome, ok, ◌>>=◌}
use pirate_servers.Wire.{Message, frame}
use pirate_servers.Defines.{CabinInfo, cabin_info, make_zmq_msg}
use pirate_servers.Defines.Decimal.{to_string}

pub record Cabin : Type 0 where
  pub info : CabinInfo
  pub alive : Bool

abbrev pub auth_msg : Message
auth_msg = "REGISTRATION" ∷ "JOIN" ∷ []

unfoldable pub cabin_info_msg : Cabin → Message
cabin_info_msg c =
    make_zmq_msg c.info.title
    ∷ make_zmq_msg c.info.description
    ∷ make_zmq_msg (to_string c.info.curr_playing)
    ∷ []

-- From the ship deck's reply to `auth_msg` on: the result, the cabin, and what it sends.
unfoldable pub authenticate_with_server : Message → Cabin → Outcome (Bool × Cabin × List Message)
unfolding cabin_info_msg
authenticate_with_server reply c = do
  sender ← frame reply 0
  if sender == "SHIP"
      then (do
        status ← frame reply 1
        if status == "SUCCESS"
            then (do
              g_id ← frame reply 2
              let known = record c { info = record c.info { g_id = g_id } }
              ok (true, known, cabin_info_msg known ∷ []))
            else ok (false, c, []))
      else ok (false, c, [])

abbrev constructed : String → String → Cabin
constructed title description = record { info = cabin_info title description; alive = true }

-- The constructor, with the ship deck's reply: the cabin is alive if it could register.
unfoldable pub new_cabin : String → String → Message → Outcome (Cabin × List Message)
unfolding authenticate_with_server
new_cabin title description reply = do
  (alive, c, sent) ← authenticate_with_server reply (constructed title description)
  ok (record c { alive = alive }, auth_msg ∷ sent)
