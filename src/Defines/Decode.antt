-- ===== src/Defines/Decode.antt =====
-- What the frames of `cabin_info::zmq_info` (src/server/defines.cpp) tell of the cabin.
use pirate_servers.Base.{ℕ, ◌<◌, String, ◌≡◌, Option, none, some, [], ◌∷◌, arith}
use pirate_servers.Base.Text.{size, skip, skip-append}
use pirate_servers.Base.Word.{u32_mod}
use pirate_servers.Wire.{Message}
use pirate_servers.Defines.{CabinInfo, zmq_info}
use pirate_servers.Defines.Decimal.{to_string, value, value-to_string}

-- The title, the description and the count of players that stand behind the labels of three frames.
abbrev pub decode : Message → Option (String × String × ℕ)
decode (title ∷ description ∷ playing ∷ []) = some (
  skip (size "Cabin name: ") title,
  skip (size "Cabin description: ") description,
  value (skip (size "Current playing: ") playing),
)
decode _ = none

-- From the three info frames of a cabin whose count is a 32-bit number, its title, its description and
-- its count of players are read back, each behind its label.
pub decode-zmq_info :
    (c : CabinInfo)
    → c.curr_playing < u32_mod
    → decode (zmq_info c) ≡ some (c.title, c.description, c.curr_playing)
unfolding zmq_info
decode-zmq_info c h = rw (
  skip-append "Cabin name: " c.title,
  skip-append "Cabin description: " c.description,
  skip-append "Current playing: " (to_string c.curr_playing),
  value-to_string c.curr_playing (omega arith),
)
