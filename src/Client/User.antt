-- ===== src/Client/User.antt =====
-- What the client does with a line of its user: `handle_user_input`, `handle_user_input_command` and
-- `handle_user_input_text` of src/client/Client.cpp. `sends i` tells whether the i-th call of
-- `zmq::send_multipart` in a handler returns a value, counted from 0.
use pirate_servers.Base.{ℕ, zero, suc, ◌+◌, Bool, true, false, List, [], ◌∷◌, ◌==◌, if◌then◌else◌}
use pirate_servers.Base.Outcome.{Outcome, ok, err, failed_assert, ◌>>=◌}
use pirate_servers.Base.Text.{has_prefix, substr, substr_from}
use pirate_servers.Wire.{Message, frame}
use pirate_servers.Client.{Client, Effect, sent}

-- Up to so many attempts from the i-th call on: whether one succeeds, and the message if so.
unfoldable pub attempt : (ℕ → Bool) → ℕ → ℕ → Message → Bool × List Effect
attempt sends zero i msg = (false, [])
attempt sends (suc left) i msg =
    let rest = attempt sends left (i + 1) msg in if sends i then (true, sent msg ∷ []) else rest

-- A send whose result is asserted.
unfoldable pub send_once : (ℕ → Bool) → Message → Client → Outcome (Client × List Effect)
send_once sends msg c = if sends 0 then ok (c, sent msg ∷ []) else err failed_assert

unfoldable pub handle_user_input_command :
    (ℕ → Bool) → Message → Client → Outcome (Client × List Effect)
handle_user_input_command sends input c = do
  command ← frame input 2
  if command == "/quit"
      then ok
          (record c { alive = false }, (attempt sends 10 0 ("CREW" ∷ "COMMAND" ∷ command ∷ [])).1)
      else if has_prefix "/join" command
      then (do
        name ← substr command 0 5
        argument ← substr_from command 6
        send_once sends ("CREW" ∷ "COMMAND" ∷ name ∷ argument ∷ []) c)
      else send_once sends ("CREW" ∷ "COMMAND" ∷ command ∷ []) c

unfoldable pub handle_user_input_text :
    (ℕ → Bool) → Message → Client → Outcome (Client × List Effect)
handle_user_input_text sends input c = do
  text ← frame input 2
  let (reached, out) = attempt sends 10 0 ("CREW" ∷ "TEXT" ∷ text ∷ [])
  ok (if reached then c else record c { alive = false }, out)

unfoldable pub handle_user_input : (ℕ → Bool) → Message → Client → Outcome (Client × List Effect)
unfolding handle_user_input_command handle_user_input_text
handle_user_input sends input c = do
  kind ← frame input 1
  if kind == "COMMAND"
      then handle_user_input_command sends input c
      else if kind == "TEXT"
      then handle_user_input_text sends input c
      else ok (c, [])
