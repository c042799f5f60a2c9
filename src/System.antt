-- ===== src/System.antt =====
-- The parts together: src/client/Client.cpp, src/server/Server.cpp, src/server/Shipdeck.cpp,
-- src/server/Cabin.cpp and src/server/LobbyCabin.cpp. Between them stand ZeroMQ's sockets, whose
-- documented behaviour the statements write out: a router socket hands a message over behind the
-- sender's identity, and sends one to the peer that its first frame names, without that frame.
pub mod Registration
pub mod Journey
pub mod Follow
pub mod Membership
pub mod Answers
pub mod Lines
pub mod Texts
pub mod Typing
pub mod Voice
pub mod Chain
pub mod Session
pub mod Showall
pub mod Speech
pub mod Tests
pub mod MembershipTests
pub mod Network
