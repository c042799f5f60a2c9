-- ===== src/System/Session.antt =====
-- What a running client (src/client/Client.cpp) sends over its whole life can be read by the ship
-- deck (src/server/Shipdeck.cpp).
use pirate_servers.Base.{
  ℕ, String, ◌≡◌, refl, subst, Bool, true, false, Option, some, none, ◌&&◌, ◌==◌, false≢true, ap,
  List, [], ◌∷◌, ◌++◌, arith, Bool-cases, ◌⊎◌, inl, inr,
}
use pirate_servers.Base.Map.{Map}
use pirate_servers.Base.Outcome.{ok, ok_injective}
use pirate_servers.Wire.{Message}
use pirate_servers.Defines.{ClientId, ServerId, CabinInfo}
use pirate_servers.Deck.{Deck}
use pirate_servers.Client.{Client, Effect, sent, printed}
use pirate_servers.Client.Quiet.{is_quiet, ship-Gives, cabin-Gives}
use pirate_servers.Client.Tasks.{connect, input_message, connection_step, core_step}
use pirate_servers.Client.Threads.{
  Process, Step, Steps, after_line, started, input_waits, input_ends, types_line, input_sends,
  connection_waits, connection_ends, ship_message, control_message, core_waits, core_ends,
  core_handles_input, core_handles_ship, sleeps, destroys, joins_input, joins_connection,
  joins_core, here, next, sending,
}
use pirate_servers.System.Answers.{from_server}
use pirate_servers.System.Lines.{all_accepted, connect_accepted, lines_accepted}

abbrev pub all_from_server : List Message → Bool
all_from_server [] = true
all_from_server (m ∷ passed) = from_server m && all_from_server passed

pub all_from_server-snoc :
    (passed : List Message) (m : Message)
    → all_from_server (passed ++ m ∷ []) ≡ (all_from_server passed && from_server m)
all_from_server-snoc [] m = ground arith
all_from_server-snoc (first ∷ passed) m = ground (arith, all_from_server-snoc passed m)

pub Step-passed :
    {p q : Process} → Step p q → all_from_server q.passed ≡ true → all_from_server p.passed ≡ true
Step-passed (input_waits e alive) h = h
Step-passed (input_ends e dead) h = h
Step-passed (types_line input_str e) h = h
Step-passed (input_sends client_input e) h = h
Step-passed (connection_waits e alive) h = h
Step-passed (connection_ends e dead) h = h
Step-passed {p} (ship_message reqs e) h = ground (arith, all_from_server-snoc p.passed reqs)
Step-passed (control_message e killed) h = h
Step-passed (core_waits e alive) h = h
Step-passed (core_ends e dead) h = h
Step-passed (core_handles_input sends reqs rest c' out e first returns) h = h
Step-passed (core_handles_ship sends reqs rest c' out e first returns) h = h
Step-passed (sleeps e alive) h = h
Step-passed (destroys e dead) h = h
Step-passed (joins_input e joined) h = h
Step-passed (joins_connection e joined) h = h
Step-passed (joins_core e joined) h = h

-- What can come to the core.
abbrev IsKnown : Message → Type 0
IsKnown m = (from_server m ≡ true) ⊎ ((input_str : String) × (input_message input_str ≡ some m))

abbrev AllKnown : List Message → Type 0
AllKnown [] = Unit {0}
AllKnown (m ∷ queue) = IsKnown m × AllKnown queue

AllKnown-snoc :
    (queue : List Message) (m : Message) → AllKnown queue → IsKnown m → AllKnown (queue ++ m ∷ [])
AllKnown-snoc [] m h k = (k, tt)
AllKnown-snoc (first ∷ queue) m h k = (h.0, AllKnown-snoc queue m h.1 k)

module _ (visit : Map CabinInfo → Map CabinInfo) (s_id : ServerId) (crew_id : ClientId)
    (d : Deck) where
  abbrev IsAccepted : List Effect → Type 0
  IsAccepted effects = all_accepted visit s_id crew_id d effects ≡ true

  quiet-IsAccepted : (effects : List Effect) → is_quiet effects ≡ true → IsAccepted effects
  quiet-IsAccepted [] h = refl
  quiet-IsAccepted (printed s ∷ effects) h = quiet-IsAccepted effects h
  quiet-IsAccepted (sent m ∷ effects) h = absurd (false≢true h)

  append-IsAccepted :
      (first rest : List Effect) → IsAccepted first → IsAccepted rest → IsAccepted (first ++ rest)
  append-IsAccepted [] rest h k = k
  append-IsAccepted (printed s ∷ first) rest h k = append-IsAccepted first rest h k
  append-IsAccepted (sent m ∷ first) rest h k = ground (arith, append-IsAccepted first rest)

  server_message-IsAccepted :
      (sends : ℕ → Bool) (c c' : Client) (m : Message) (effects : List Effect)
      → from_server m ≡ true
      → core_step sends m c ≡ ok (c', effects)
      → IsAccepted effects
  unfolding core_step
  server_message-IsAccepted sends c c' [] effects h e = cc
  server_message-IsAccepted sends c c' (sender ∷ frames) effects h e =
      elim (Bool-cases (sender == "SHIP")) [
        | inl ship ↦
            quiet-IsAccepted effects ((ship-Gives (sender ∷ frames) c).at c' effects (rw ship at e))
        | inr other ↦ elim (Bool-cases (sender == "CABIN")) [
          | inl cabin ↦
              quiet-IsAccepted effects
                ((cabin-Gives (sender ∷ frames) c).at c' effects (rw (other, cabin) at e))
          | inr another ↦
              let user : (sender == "CLIENT") ≡ false = ground arith in
              let returned : ok (c, []) ≡ ok (c', effects) = rw (other, another, user) at e in
              subst IsAccepted (ap (λ x. x.1) (ok_injective returned)) refl
        ]
      ]

  known-IsAccepted :
      (sends : ℕ → Bool) (c c' : Client) (m : Message) (effects : List Effect)
      → IsKnown m
      → core_step sends m c ≡ ok (c', effects)
      → IsAccepted effects
  known-IsAccepted sends c c' m effects (inl server) e =
      server_message-IsAccepted sends c c' m effects server e
  known-IsAccepted sends c c' m effects (inr (input_str, typed)) e =
      lines_accepted visit s_id crew_id d sends c c' input_str m effects typed e

  -- All that waits for the core is known, and all that was sent is accepted.
  record IsSound (p : Process) : Type 0 where
    typed : (m : Message) → p.user_input_thread ≡ sending m → IsKnown m
    queued : AllKnown p.input_queue
    passed_on : AllKnown p.ship_queue
    done : IsAccepted p.effects

  after_line-IsKnown :
      (input_str : String) (m : Message) (line : Option Message)
      → input_message input_str ≡ line
      → after_line line ≡ sending m
      → IsKnown m
  after_line-IsKnown input_str m none read e = cc
  after_line-IsKnown input_str m (some n) read e = inr (input_str, cc)

  Step-IsSound :
      {p q : Process} → Step p q → all_from_server q.passed ≡ true → IsSound p → IsSound q
  unfolding connection_step
  Step-IsSound (input_waits e alive) h s = ground arith
  Step-IsSound (input_ends e dead) h s = ground arith
  Step-IsSound (types_line input_str e) h s = record {
    typed = λ m at. after_line-IsKnown input_str m (input_message input_str) refl at;
    queued = s.queued;
    passed_on = s.passed_on;
    done = s.done;
  }
  Step-IsSound {p} (input_sends client_input e) h s = record {
    typed = λ m at. cc;
    queued = AllKnown-snoc p.input_queue client_input s.queued (s.typed client_input e);
    passed_on = s.passed_on;
    done = s.done;
  }
  Step-IsSound (connection_waits e alive) h s = ground arith
  Step-IsSound (connection_ends e dead) h s = ground arith
  Step-IsSound {p} (ship_message reqs e) h s = record {
    typed = s.typed;
    queued = s.queued;
    passed_on =
        AllKnown-snoc p.ship_queue reqs s.passed_on
          (inl (ground (arith, all_from_server-snoc p.passed reqs)));
    done = s.done;
  }
  Step-IsSound (control_message e killed) h s = ground arith
  Step-IsSound (core_waits e alive) h s = ground arith
  Step-IsSound (core_ends e dead) h s = ground arith
  Step-IsSound {p} (core_handles_input sends reqs rest c' out e first returns) h s =
      let known : AllKnown (reqs ∷ rest) = subst AllKnown first s.queued in
      record {
        typed = s.typed;
        queued = known.1;
        passed_on = s.passed_on;
        done =
            append-IsAccepted p.effects out s.done
              (known-IsAccepted sends p.client c' reqs out known.0 returns);
      }
  Step-IsSound {p} (core_handles_ship sends reqs rest c' out e first returns) h s =
      let known : AllKnown (reqs ∷ rest) = subst AllKnown first s.passed_on in
      record {
        typed = s.typed;
        queued = s.queued;
        passed_on = known.1;
        done =
            append-IsAccepted p.effects out s.done
              (known-IsAccepted sends p.client c' reqs out known.0 returns);
      }
  Step-IsSound (sleeps e alive) h s = s
  Step-IsSound (destroys e dead) h s = ground arith
  Step-IsSound (joins_input e joined) h s = ground arith
  Step-IsSound (joins_connection e joined) h s = ground arith
  Step-IsSound (joins_core e joined) h s = ground arith

  Steps-IsSound :
      {c : Client} {p : Process} → Steps (started c) p → all_from_server p.passed ≡ true → IsSound p
  Steps-IsSound here h = record { typed = λ m at. cc; queued = tt; passed_on = tt; done = refl }
  Steps-IsSound (next before s) h = Step-IsSound s h (Steps-IsSound before (Step-passed s h))

  -- Whatever the threads of a client do in whatever order, the ship deck, in whatever state it is,
  -- handles without a fault each message that the client has sent, its login included, if no message
  -- that came from the ship begins as one of the user's.
  pub session_accepted :
      (connects : String → Bool) (username password server_addr : String) (res : Option ℕ)
      (reqs : Message) (c : Client) (first : List Effect) (p : Process)
      → connect connects username password server_addr res reqs ≡ ok (c, first)
      → Steps (started c) p
      → all_from_server p.passed ≡ true
      → all_accepted visit s_id crew_id d (first ++ p.effects) ≡ true
  session_accepted connects username password server_addr res reqs c first p connected steps h =
      append-IsAccepted first p.effects
        (connect_accepted visit s_id crew_id d connects username password server_addr res reqs c
          first connected)
        (Steps-IsSound steps h).done
