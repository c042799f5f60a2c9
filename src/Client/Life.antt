-- ===== src/Client/Life.antt =====
-- How a client starts and stops: the constructor, with the login and then the core's socket and the
-- threads, and the destructor of src/client/Client.cpp.
use pirate_servers.Base.{ℕ, String, Bool, true, false, Option, List, [], ◌∷◌}
use pirate_servers.Base.Outcome.{Outcome, ok, bound, ◌>>=◌}
use pirate_servers.Wire.{Message}
use pirate_servers.Client.{Client, Effect}
use pirate_servers.Client.Tasks.{connect}

pub data Socket : Type 0 where
  core control_pub : Socket

pub record Running : Type 0 where
  pub client : Client
  pub core_endpoint : String
  pub control_pub_endpoint : String
  pub user_input_thread : Bool
  pub connection_thread : Bool
  pub core_thread : Bool

abbrev pub is_alive : Running → Bool
is_alive r = r.client.alive

-- The constructor: the first send's result, the ship's reply, and then the sockets of the threads.
-- `connects` and `bind` are what the sockets library answers.
unfoldable pub start_client :
    (String → Bool)
    → (Socket → String → Option String)
    → String
    → String
    → String
    → Option ℕ
    → Message
    → Outcome (Running × List Effect)
start_client connects bind username password server_addr res reqs = do
  (c, sent) ← connect connects username password server_addr res reqs
  core_bound ← bound (bind core "tcp://localhost:*")
  control ← bound (bind control_pub "tcp://localhost:*")
  let running : Running = record {
    client = c;
    core_endpoint = core_bound;
    control_pub_endpoint = control;
    user_input_thread = true;
    connection_thread = true;
    core_thread = true;
  }
  ok (running, sent)

-- The destructor, with what it sends on `control_pub` before it joins the threads.
unfoldable pub close_client : Running → Running × List Message
close_client r = (
  record r {
    client = record r.client { alive = false };
    user_input_thread = false;
    connection_thread = false;
    core_thread = false;
  },
  ("" ∷ []) ∷ [],
)
