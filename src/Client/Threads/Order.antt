-- ===== src/Client/Threads/Order.antt =====
-- In which order the core of src/client/Client.cpp handles what the user types and what the ship
-- sends.
use pirate_servers.Base.{
  ℕ, String, ◌≡◌, refl, sym, ap, ◌∙◌, Bool, List, [], ◌∷◌, ◌++◌, map, ◌==◌, if◌then◌else◌,
  Bool-cases, inl, inr,
}
use mathlib.Core.List.{append-nil, append_assoc}
use pirate_servers.Base.Outcome.{ok}
use pirate_servers.Base.Interleaving.{Interleaving, none_left, snoc_first, snoc_second}
use pirate_servers.Base.Text.{has_prefix}
use pirate_servers.Wire.{Message}
use pirate_servers.Client.{Client}
use pirate_servers.Client.Tasks.{input_message, connection_step, core_task}
use pirate_servers.Client.Threads.Run.{Steps-HasRun}
use pirate_servers.Client.Threads.{
  Place, Process, Step, Steps, after_line, started, input_waits, input_ends, types_line,
  input_sends, connection_waits, connection_ends, ship_message, control_message, core_waits,
  core_ends, core_handles_input, core_handles_ship, sleeps, destroys, joins_input, joins_connection,
  joins_core, here, next, at_test, in_call, ended, sending,
}

-- The messages for the core that a line stands for: none if it is empty, and else one with the line as
-- a command if it begins with a slash and as a text if not.
abbrev pub line_messages : String → List Message
line_messages input_str =
    if input_str == ""
    then []
    else if has_prefix "/" input_str
    then ("CLIENT" ∷ "COMMAND" ∷ input_str ∷ []) ∷ []
    else ("CLIENT" ∷ "TEXT" ∷ input_str ∷ []) ∷ []

-- Those that all lines stand for, and the one that is not sent yet.
abbrev pub lines_messages : List String → List Message
lines_messages [] = []
lines_messages (input_str ∷ typed) = line_messages input_str ++ lines_messages typed

abbrev pub unsent : Place Message → List Message
unsent at_test = []
unsent in_call = []
unsent ended = []
unsent (sending client_input) = client_input ∷ []

abbrev pub messages : List ((ℕ → Bool) × Message) → List Message
messages handled = map (λ x. x.1) handled

-- What the core handled is made of what the user typed and what the ship sent, each in its order; the
-- rest of either waits for it.
record IsOrdered (p : Process) : Type 0 where
  mine : List Message
  theirs : List Message
  lines : lines_messages p.typed ≡ mine ++ (p.input_queue ++ unsent p.user_input_thread)
  ship : p.passed ≡ theirs ++ p.ship_queue
  order : Interleaving mine theirs (messages p.handled)

lines_messages-snoc :
    (typed : List String) (input_str : String)
    → lines_messages (typed ++ input_str ∷ []) ≡ lines_messages typed ++ line_messages input_str
lines_messages-snoc [] input_str = append-nil _
lines_messages-snoc (first ∷ typed) input_str =
    ap (λ (l : List Message). line_messages first ++ l) (lines_messages-snoc typed input_str)
    ∙ sym (append_assoc (line_messages first) (lines_messages typed) _)

unsent-after_line :
    (input_str : String) → unsent (after_line (input_message input_str)) ≡ line_messages input_str
unfolding input_message
unsent-after_line input_str = elim (Bool-cases (input_str == "")) [
  | inl empty ↦ rw empty refl
  | inr line ↦ elim (Bool-cases (has_prefix "/" input_str)) [
    | inl command ↦ rw (line, command) refl
    | inr text ↦ rw (line, text) refl
  ]
]

messages-snoc :
    (handled : List ((ℕ → Bool) × Message)) (sends : ℕ → Bool) (reqs : Message)
    → messages (handled ++ (sends, reqs) ∷ []) ≡ messages handled ++ reqs ∷ []
messages-snoc [] sends reqs = refl
messages-snoc (first ∷ handled) sends reqs = ap (◌∷◌ first.1) (messages-snoc handled sends reqs)

-- A step of another thread, and a step of `input_task` that leaves nothing unsent.
same_order :
    {p : Process} (q : Process)
    → IsOrdered p
    → q.typed ≡ p.typed
    → q.passed ≡ p.passed
    → q.input_queue ++ unsent q.user_input_thread ≡ p.input_queue ++ unsent p.user_input_thread
    → q.ship_queue ≡ p.ship_queue
    → q.handled ≡ p.handled
    → IsOrdered q
same_order q i e1 e2 e3 e4 e5 = record {
  mine = i.mine;
  theirs = i.theirs;
  lines = rw (e1, e3) i.lines;
  ship = rw (e2, e4) i.ship;
  order = rw e5 i.order;
}

Step-IsOrdered : {p q : Process} → Step p q → IsOrdered p → IsOrdered q
unfolding connection_step
Step-IsOrdered {p} (input_waits e alive) i =
    same_order _ i refl refl (ap (λ (t : Place Message). p.input_queue ++ unsent t) (sym e)) refl
      refl
Step-IsOrdered {p} (input_ends e dead) i =
    same_order _ i refl refl (ap (λ (t : Place Message). p.input_queue ++ unsent t) (sym e)) refl
      refl
Step-IsOrdered {p} (types_line input_str e) i = record {
  mine = i.mine;
  theirs = i.theirs;
  lines =
      lines_messages-snoc p.typed input_str
      ∙ ap (λ (l : List Message). l ++ line_messages input_str)
          (i.lines
            ∙ ap (λ (t : Place Message). i.mine ++ (p.input_queue ++ unsent t)) e
            ∙ ap (λ (l : List Message). i.mine ++ l) (append-nil p.input_queue))
      ∙ append_assoc i.mine p.input_queue (line_messages input_str)
      ∙ ap (λ (l : List Message). i.mine ++ (p.input_queue ++ l))
          (sym (unsent-after_line input_str));
  ship = i.ship;
  order = i.order;
}
Step-IsOrdered {p} (input_sends client_input e) i = record {
  mine = i.mine;
  theirs = i.theirs;
  lines =
      i.lines
      ∙ ap (λ (t : Place Message). i.mine ++ (p.input_queue ++ unsent t)) e
      ∙ ap (λ (l : List Message). i.mine ++ l)
          (sym (append-nil (p.input_queue ++ client_input ∷ [])));
  ship = i.ship;
  order = i.order;
}
Step-IsOrdered (connection_waits e alive) i = same_order _ i refl refl refl refl refl
Step-IsOrdered (connection_ends e dead) i = same_order _ i refl refl refl refl refl
Step-IsOrdered {p} (ship_message reqs e) i = record {
  mine = i.mine;
  theirs = i.theirs;
  lines = i.lines;
  ship =
      ap (λ (l : List Message). l ++ reqs ∷ []) i.ship
      ∙ append_assoc i.theirs p.ship_queue (reqs ∷ []);
  order = i.order;
}
Step-IsOrdered (control_message e killed) i = same_order _ i refl refl refl refl refl
Step-IsOrdered (core_waits e alive) i = same_order _ i refl refl refl refl refl
Step-IsOrdered (core_ends e dead) i = same_order _ i refl refl refl refl refl
Step-IsOrdered {p} (core_handles_input sends reqs rest c out e first returns) i = record {
  mine = i.mine ++ reqs ∷ [];
  theirs = i.theirs;
  lines =
      i.lines
      ∙ ap (λ (l : List Message). i.mine ++ (l ++ unsent p.user_input_thread)) first
      ∙ sym (append_assoc i.mine (reqs ∷ []) (rest ++ unsent p.user_input_thread));
  ship = i.ship;
  order = rw (messages-snoc p.handled sends reqs) (snoc_first reqs i.order);
}
Step-IsOrdered {p} (core_handles_ship sends reqs rest c out e first returns) i = record {
  mine = i.mine;
  theirs = i.theirs ++ reqs ∷ [];
  lines = i.lines;
  ship =
      i.ship
      ∙ ap (λ (l : List Message). i.theirs ++ l) first
      ∙ sym (append_assoc i.theirs (reqs ∷ []) rest);
  order = rw (messages-snoc p.handled sends reqs) (snoc_second reqs i.order);
}
Step-IsOrdered (sleeps e alive) i = i
Step-IsOrdered (destroys e dead) i = same_order _ i refl refl refl refl refl
Step-IsOrdered (joins_input e joined) i = same_order _ i refl refl refl refl refl
Step-IsOrdered (joins_connection e joined) i = same_order _ i refl refl refl refl refl
Step-IsOrdered (joins_core e joined) i = same_order _ i refl refl refl refl refl

Steps-IsOrdered : {c : Client} {p : Process} → Steps (started c) p → IsOrdered p
Steps-IsOrdered here = record {
  mine = [];
  theirs = [];
  lines = refl;
  ship = refl;
  order = none_left;
}
Steps-IsOrdered (next before s) = Step-IsOrdered s (Steps-IsOrdered before)

-- Whatever the threads do in whatever order, the core has run its loop over the messages that it
-- handled, and these are an interleaving of a first part of what the user typed and a first part of
-- what the ship sent, each in its order; the rest of either is what waits for the core or, for a
-- line, is still to be sent.
pub core_follows_order :
    (c : Client) (p : Process)
    → Steps (started c) p
    → (core_task p.handled c ≡ ok (p.client, p.effects))
      × (mine : List Message) × (theirs : List Message) × (lines_messages p.typed
          ≡ mine ++ (p.input_queue ++ unsent p.user_input_thread))
      × (p.passed ≡ theirs ++ p.ship_queue)
      × Interleaving mine theirs (messages p.handled)
core_follows_order c p steps =
    let i = Steps-IsOrdered steps in
    ((Steps-HasRun steps).runs, i.mine, i.theirs, i.lines, i.ship, i.order)
