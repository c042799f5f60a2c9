-- ===== src/Client/Ship.antt =====
-- What the client does with a message of the ship or of a cabin: `handle_ship_input` and
-- `handle_cabin_input` of src/client/Client.cpp, with the handlers below them.
use Prim.Native.String.{◌++◌ as concat}
use pirate_servers.Base.{String, false, List, [], ◌∷◌, ◌++◌, map, length, ◌==◌, if◌then◌else◌}
use pirate_servers.Base.Outcome.{Outcome, ok, ◌>>=◌}
use pirate_servers.Base.Word.{sub64}
use pirate_servers.Wire.{Frame, Message, frame, subspan}
use pirate_servers.Client.{Client, Effect, printed}

abbrev rule : Effect
rule = printed "-------------------\n"

-- "sender: text" and a line break.
abbrev pub line : Frame → Frame → String
line sender text = concat sender (concat ": " (concat text "\n"))

-- The body of the loop over the texts reads the sender's frame at each text.
unfoldable pub print_texts : Message → Message → Outcome (List Effect)
print_texts input [] = ok []
print_texts input (msg ∷ rest) = do
  sender ← frame input 2
  more ← print_texts input rest
  ok (printed (line sender msg) ∷ more)

unfoldable pub handle_ship_input_text : Message → Client → Outcome (Client × List Effect)
unfolding print_texts
handle_ship_input_text input c = do
  texts ← subspan input 3 (sub64 (length input) 3)
  lines ← print_texts input texts
  ok (c, lines ++ (printed "< " ∷ []))

unfoldable pub handle_ship_input_command : Message → Client → Outcome (Client × List Effect)
handle_ship_input_command input c = do
  command ← frame input 2
  ok (if command == "die" then record c { alive = false } else c, [])

-- A block of lines, each behind a label, between two rules.
abbrev pub labelled : String → Message → List Effect
labelled label texts =
    (rule ∷ map (λ msg. printed (concat label (concat msg "\n"))) texts)
    ++ (rule ∷ printed "> " ∷ [])

unfoldable pub handle_ship_input_alert : Message → Client → Outcome (Client × List Effect)
handle_ship_input_alert input c = do
  texts ← subspan input 2 (sub64 (length input) 2)
  ok (c, labelled "ALERT: " texts)

unfoldable pub handle_ship_input_info : Message → Client → Outcome (Client × List Effect)
handle_ship_input_info input c = do
  texts ← subspan input 2 (sub64 (length input) 2)
  ok (c, labelled "SHIP INFO: " texts)

unfoldable pub handle_ship_input : Message → Client → Outcome (Client × List Effect)
unfolding handle_ship_input_text handle_ship_input_command handle_ship_input_alert
    handle_ship_input_info
handle_ship_input input c = do
  kind ← frame input 1
  if kind == "TEXT"
      then handle_ship_input_text input c
      else if kind == "COMMAND"
      then handle_ship_input_command input c
      else if kind == "ALERT"
      then handle_ship_input_alert input c
      else if kind == "INFO"
      then handle_ship_input_info input c
      else ok (c, [])

-- The loop over further texts leaves out the empty ones.
unfoldable pub print_more : Frame → Message → List Effect
print_more username [] = []
print_more username (msg ∷ rest) =
    if msg == ""
    then print_more username rest
    else printed (concat "> " (line username msg)) ∷ print_more username rest

unfoldable pub handle_cabin_input : Message → Client → Outcome (Client × List Effect)
unfolding print_more
handle_cabin_input input c = do
  input_type ← frame input 1
  if input_type == "TEXT"
      then (do
        username ← frame input 2
        text ← frame input 3
        more ← subspan input 3 (sub64 (length input) 4)
        let first = if text == "" then [] else printed (line username text) ∷ []
        ok (c, first ++ (print_more username more ++ (printed "> " ∷ []))))
      else ok (c, [])
