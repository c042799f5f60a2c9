-- ===== src/Defines/Tests.antt =====
-- The theorem on `cabin_info::zmq_info` of src/server/defines.cpp at a cabin.
use pirate_servers.Base.{◌≡◌, refl, arith, some, [], ◌∷◌}
use pirate_servers.Defines.{CabinInfo, zmq_info}
use pirate_servers.Defines.Decimal.{to_string}
use pirate_servers.Defines.Decode.{decode, decode-zmq_info}

abbrev first : CabinInfo
first = record { g_id = "P"; title = "Port"; description = "a port"; curr_playing = 12 }

shown :
    zmq_info first ≡ "Cabin name: Port" ∷ "Cabin description: a port" ∷ "Current playing: 12" ∷ []
unfolding zmq_info to_string
shown = refl

decode-zmq_info_example : decode (zmq_info first) ≡ some ("Port", "a port", 12)
decode-zmq_info_example = decode-zmq_info first (omega arith)
