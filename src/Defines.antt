-- ===== src/Defines.antt =====
-- The records that the server's parts share and the frames made of them:
-- include/server/defines.hpp and src/server/defines.cpp.
pub mod Decimal
pub mod Decode
pub mod Tests
use Prim.Native.String.{◌++◌}
use pirate_servers.Base.Integer.{ℤ, pos, negsuc}
use pirate_servers.Base.{
  ℕ, suc, String, Bool, true, false, Option, none, List, [], ◌∷◌, map, length,
}
use pirate_servers.Wire.{Frame, Message}
use Decimal.{to_string}

abbrev pub ClientId : Type 0
ClientId = String

abbrev pub ServerId : Type 0
ServerId = String

abbrev pub CabinId : Type 0
CabinId = String

-- `std::to_string` of an `int`, and `std::string(name) + std::to_string(port)`.
abbrev pub to_string_int : ℤ → String
to_string_int (pos n) = to_string n
to_string_int (negsuc n) = "-" ++ to_string (suc n)

abbrev pub address : String → ℤ → String
address name port = name ++ to_string_int port

pub record ClientInfo : Type 0 where
  pub c_id : ClientId
  pub c_server_id : ServerId
  pub curr_cabin : CabinId
  pub c_username : String
  pub c_password : String
  pub c_online : Bool

-- The constructor, with the initial values of the fields that it leaves alone.
abbrev pub client_info : String → String → ClientInfo
client_info username password = record {
  c_id = "";
  c_server_id = "";
  curr_cabin = "";
  c_username = username;
  c_password = password;
  c_online = true;
}

-- What `operator[]` puts under a missing key.
abbrev pub no_client : ClientInfo
no_client = client_info "" ""

abbrev pub set_server_id : ServerId → ClientInfo → ClientInfo
set_server_id id c = record c { c_server_id = id }

abbrev pub set_crew_id : ClientId → ClientInfo → ClientInfo
set_crew_id id c = record c { c_id = id }

abbrev pub set_cabin_id : CabinId → ClientInfo → ClientInfo
set_cabin_id id c = record c { curr_cabin = id }

abbrev pub set_offline : ClientInfo → ClientInfo
set_offline c = record c { c_online = false }

abbrev pub set_online : ClientInfo → ClientInfo
set_online c = record c { c_online = true }

pub record CabinInfo : Type 0 where
  pub g_id : CabinId
  pub title : String
  pub description : String
  pub curr_playing : ℕ

abbrev pub cabin_info : String → String → CabinInfo
cabin_info t d = record { g_id = ""; title = t; description = d; curr_playing = 0 }

abbrev pub no_cabin : CabinInfo
no_cabin = cabin_info "" ""

-- `server_hops` has no value before one is assigned, which no code does.
pub record ServerInfo : Type 0 where
  pub s_id : ServerId
  pub s_title : String
  pub server_hops : Option ℕ
  pub clients : List ClientInfo
  pub games : List CabinInfo

abbrev pub server_info : String → ServerInfo
server_info title = record {
  s_id = "";
  s_title = title;
  server_hops = none;
  clients = [];
  games = [];
}

unfoldable pub zmq_info : CabinInfo → Message
zmq_info c =
    ("Cabin name: " ++ c.title)
    ∷ ("Cabin description: " ++ c.description)
    ∷ ("Current playing: " ++ to_string c.curr_playing)
    ∷ []

abbrev pub crew_header_mp : ServerId → ClientId → String → String → Message
crew_header_mp s_id c_id sender_type message_type = s_id ∷ c_id ∷ sender_type ∷ message_type ∷ []

abbrev pub make_zmq_msg : String → Frame
make_zmq_msg str = str

-- The lines that the three overloads print of a message.
pub print_multipart_msg : Message → List String
print_multipart_msg mp = (to_string (length mp) ++ " parts:\n") ∷ map (λ msg. msg ++ "\n") mp
