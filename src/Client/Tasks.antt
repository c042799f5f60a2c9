-- ===== src/Client/Tasks.antt =====
-- The client's threads and its login: the constructor, `input_task`, `connection_task` and
-- `core_task` of src/client/Client.cpp.
use pirate_servers.Base.{
  ℕ, suc, String, Bool, true, false, Option, none, some, List, [], ◌∷◌, ◌++◌, length, ◌==◌, ltb,
  nat_eq, if◌then◌else◌,
}
use pirate_servers.Base.Outcome.{Outcome, ok, err, failed_assert, too_many_parts, connected, ◌>>=◌}
use pirate_servers.Base.Text.{has_prefix}
use pirate_servers.Wire.{Message, frame}
use pirate_servers.Client.{Client, new_client, Effect, sent}
use pirate_servers.Client.Ship.{handle_ship_input, handle_cabin_input}
use pirate_servers.Client.User.{handle_user_input}

-- A line of the user as a message to the core; an empty line is passed over.
unfoldable pub input_message : String → Option Message
input_message input_str =
    if input_str == ""
    then none
    else some ("CLIENT" ∷ (if has_prefix "/" input_str then "COMMAND" else "TEXT") ∷ input_str ∷ [])

-- One message that the core receives.
unfoldable pub core_step : (ℕ → Bool) → Message → Client → Outcome (Client × List Effect)
core_step sends reqs c = do
  sender ← frame reqs 0
  if sender == "SHIP"
      then handle_ship_input reqs c
      else if sender == "CABIN"
      then handle_cabin_input reqs c
      else if sender == "CLIENT"
      then handle_user_input sends reqs c
      else ok (c, [])

-- The loop of the core over the messages that arrive, each with the results of the sends that its
-- handler makes: it ends when the client is not alive.
unfoldable pub core_task : List ((ℕ → Bool) × Message) → Client → Outcome (Client × List Effect)
core_task [] c = ok (c, [])
core_task ((sends, reqs) ∷ rest) c = elim c.alive [
  | false ↦ ok (c, [])
  | true ↦ do
    (c', out) ← core_step sends reqs c
    (c'', more) ← core_task rest c'
    ok (c'', out ++ more)
]

-- What `connection_task` passes on to the core in one round: the ship's message, if there is one.
unfoldable pub connection_step : Option Message → List Message
connection_step none = []
connection_step (some reqs) = reqs ∷ []

-- `while (res == EAGAIN)`: the first result of a send, and those of the calls in the loop. `none` is
-- a result with no value. The result counts how often the message was sent again.
unfoldable pub resends : ℕ → Option ℕ → List (Option ℕ) → ℕ
resends eagain none later = 0
resends eagain (some n) [] = 0
resends eagain (some n) (res ∷ later) =
    let again = resends eagain res later in if nat_eq n eagain then suc again else 0

-- The constructor from its first message up to its threads: the first send's result, and the ship's
-- reply.
unfoldable pub log_in :
    String → String → String → Option ℕ → Message → Outcome (Client × List Effect)
log_in username password server_addr none reqs = err failed_assert
log_in username password server_addr (some n) reqs =
    if ltb 3 (length reqs) then err too_many_parts else do
      sender ← frame reqs 0
      if sender == "SHIP"
          then (do
            status ← frame reqs 1
            if status == "ACK"
                then ok (
                  new_client username password server_addr,
                  sent ("CREW" ∷ "LOGIN" ∷ username ∷ password ∷ []) ∷ [],
                )
                else err failed_assert)
          else err failed_assert

-- The constructor up to its threads. `connects` is what the sockets library answers.
unfoldable pub connect :
    (String → Bool) → String → String → String → Option ℕ → Message → Outcome (Client × List Effect)
connect connects username password server_addr res reqs = do
  addr ← connected connects server_addr
  log_in username password addr res reqs
