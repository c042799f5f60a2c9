-- ===== src/Base/Place.antt =====
-- Where a thread of src/server/Shipdeck.cpp or src/server/Server.cpp stands, whose loops are all of one
-- shape: the test of `alive`, and a call that waits.

-- Where a thread stands: at the test of its loop, in the call that waits (`std::getline` or
-- `zmq::poll`), or behind its loop.
pub data Place : Type 0 where
  at_test in_call ended : Place
