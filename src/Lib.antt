-- ===== src/Lib.antt =====
-- Pirate-Servers: a chat over ZeroMQ. Clients (src/client) talk to a server (src/server/Server.cpp),
-- which passes their messages to a ship deck (src/server/Shipdeck.cpp); the deck keeps the clients and
-- the cabins, and cabins (src/server/Cabin.cpp, src/server/LobbyCabin.cpp) send texts back through it.
--
-- How the files correspond to the code, with paths from the repository's root:
--   Base        what the modules share: maps with the insertions of operator[] (Map), outcomes of
--               code that may fault (Outcome) and what holds when it returns (Returns), machine
--               words (Word), texts (Text, Prefix), `int` (Integer), where a thread stands (Place), two
--               lists merged (Interleaving).
--   Wire        messages as lists of frames; `input[i]` and `std::span::subspan`.
--   Defines     include/server/defines.hpp and src/server/defines.cpp: client_info, cabin_info,
--               server_info, zmq_info, crew_header_mp; std::to_string (Decimal).
--   Deck        include/server/Shipdeck.hpp and src/server/Shipdeck.cpp: the members as a record, and
--               each handler as a function of the message and the record to the new record and the
--               messages sent. Move is change_player_cabins, Services the messages of cabins and
--               ships, Crew those of clients, Workers the threads' loops, Life the constructor and the
--               destructor, Threads the threads beside each other with the destructor, as steps in
--               any order. Count, Placed, Reach, Delivery, Change, Known, Keeps, Access, Namesakes,
--               Faults, Bounds, Loops and the modules of Threads hold proofs.
--   Cabin       include/server/Cabin.hpp and src/server/Cabin.cpp: the registration, and
--               poll_with_control (Poll).
--   Lobby       include/server/LobbyCabin.hpp and src/server/LobbyCabin.cpp; Thread is the constructor,
--               which runs the loop. Refinement and Order hold what a history means for a user.
--   Bridge      include/server/ServerBridgeCabin.hpp and src/server/ServerBridgeCabin.cpp, which
--               src/server/CMakeLists.txt does not build; no code writes to its next_hops.
--   Client      include/client/Client.hpp and src/client/Client.cpp: Ship and User are the handlers,
--               Tasks the threads' rounds and the login, Life the constructor and the destructor,
--               Threads the threads beside each other, as steps in any order, with the wait of
--               client_main.cpp, which Program models up to there. Commands, Console, Quiet and
--               the modules of Threads hold proofs.
--   Server      include/server/Server.hpp and src/server/Server.cpp, with the constructor and the
--               destructor in Life; Threads is the threads beside each other with the destructor, as
--               steps in any order. Routes and the modules of Threads hold proofs.
--   Programs    server_main.cpp: the arguments, read by std::stoi (Base/Integer), and how the parts
--               are connected (Wiring) and end (Shutdown).
--   System      the parts together: a registration, a text and two commands from end to end
--               (Registration, Journey, Showall); what the deck tells the lobbies against where its
--               clients are (Follow, Membership) and what they say (Speech); the deck and a lobby with
--               what is on its way between them, as steps in any order (Network); what
--               clients send against what the deck can read (Lines, Session), and what it answers
--               against what they can read (Answers); what a user types against what the client sends
--               (Texts, Typing), whose texts the deck tells the cabins (Voice), and the way of a text
--               from the keyboard through a server and the deck to the cabins (Chain).
-- The modules named Tests, LoopTests and Examples of Deck, and MembershipTests of System hold theorems at
-- concrete inputs.
--
-- Frames are texts whose characters stand for bytes. A read past the end of a message, which C++
-- leaves undefined, is the fault `out_of_range`; the exception of std::string::substr is
-- `bad_substr`, a false assertion of the client `failed_assert`. `curr_playing` is a number modulo
-- 2^32, and `size() - n` one modulo 2^64. A std::unordered_map is a list of entries, with the entry
-- that operator[] leaves behind; the order in which one is traversed is an argument, `visit`.
-- A loop of a thread runs over a list of rounds: what the poll found ready, and what `alive` was.
-- std::to_string has twenty rounds, enough for the digits of any 64-bit number; the client's retries
-- are the ten of the source. No other fuel is used.
--
-- Not modelled: the sockets themselves. What is received is an argument, and what is sent is a list;
-- the sends of the server's side are taken to succeed, and those of the client succeed or fail by an
-- argument. `left`, what zmq::send_multipart leaves of the frames that it sends, is an argument of
-- the server's listener. ServerBridgeCabin's handle_shipdeck_input_connect and
-- handle_shipdeck_input_send have no definition in the repository and are arguments. The two
-- listeners of the ship deck share its maps with no lock; here their handlers take turns. What a
-- socket's bind answers is an argument, `bind`, of the constructors, and what the connect of the
-- client's `dealer` and of the server's `shipdeck_dealer` answers another, `connects`. A thread is a
-- flag that tells whether it can be joined: an exception that leaves the block of server_main.cpp
-- meets the flags of the two lobbies' threads. Only in Deck/Threads, Client/Threads, Server/Threads,
-- Programs/Shutdown, System/Network and System/Chain do threads run beside each other. There a message
-- that a socket sends arrives at some time, if its receiver asks for it, and the messages of one sender
-- arrive in their order. Whether the `control_sub` of each listener of the server is subscribed when
-- its destructor sends the kill message is an argument of that step; the client's `control_sub` is
-- taken as subscribed. A message on a socket that two threads share is sent in one step. There is
-- no model of add_cabin, add_sub_ship and set_top_ship of the ship deck, which return false and
-- are never called, src/server/ServerConn.cpp (empty bodies, not built), and the two copies of third-party
-- headers, include/zmq_addon.hpp and include/zhelpers.hpp.
pub mod Base
pub mod Bridge
pub mod Cabin
pub mod Client
pub mod Deck
pub mod Defines
pub mod Lobby
pub mod Programs
pub mod Server
pub mod System
pub mod Wire
