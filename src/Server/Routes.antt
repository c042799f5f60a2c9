-- ===== src/Server/Routes.antt =====
-- What the listeners of src/server/Server.cpp pass on, and to whom, and when the server ends.
use pirate_servers.Base.{
  String, ◌≡◌, refl, Bool, true, false, Option, none, some, List, [], ◌∷◌, map, arith, ◌==◌, ◌||◌,
  not, eq_iff, if◌then◌else◌, Bool-cases, inl, inr,
}
use pirate_servers.Base.Outcome.{ok}
use pirate_servers.Base.Text.{has_prefix}
use pirate_servers.Wire.{Message}
use pirate_servers.Server.{
  Server, to_clients, Round, ship_listener_task, user_input_step, user_input_task,
}

-- The round of a poll at which no ship speaks.
abbrev pub quiet : Bool → Option Message → Bool → Round
quiet alive shipdeck control = record {
  alive = alive;
  ship = none;
  shipdeck = shipdeck;
  control = control;
}

-- What arrives from the ship deck while the server is alive, the round of the control message
-- included.
unfoldable pub deck_messages : List (Bool × Option Message × Bool) → List Message
deck_messages [] = []
deck_messages ((false, m, control) ∷ rs) = []
deck_messages ((true, none, true) ∷ rs) = []
deck_messages ((true, some m, true) ∷ rs) = m ∷ []
deck_messages ((true, none, false) ∷ rs) = deck_messages rs
deck_messages ((true, some m, false) ∷ rs) = m ∷ deck_messages rs

abbrev pub quiet_rounds : List (Bool × Option Message × Bool) → List Round
quiet_rounds [] = []
quiet_rounds ((alive, m, control) ∷ rs) = quiet alive m control ∷ quiet_rounds rs

module _ (left : Message → Message) where
  -- While no ship speaks, the ship listener sends the crew every message of the ship deck that arrives
  -- while the server is alive, up to the round of the control message, as it is, once and in order, and
  -- sends nothing else.
  pub ship_listener_passes_on :
      (rs : List (Bool × Option Message × Bool))
      → ship_listener_task left (quiet_rounds rs) ≡ ok (map to_clients (deck_messages rs))
  unfolding ship_listener_task deck_messages
  ship_listener_passes_on [] = refl
  ship_listener_passes_on ((false, m, control) ∷ rs) = refl
  ship_listener_passes_on ((true, none, true) ∷ rs) = refl
  ship_listener_passes_on ((true, some m, true) ∷ rs) = refl
  ship_listener_passes_on ((true, none, false) ∷ rs) = rw (ship_listener_passes_on rs)
  ship_listener_passes_on ((true, some m, false) ∷ rs) = rw (ship_listener_passes_on rs)

-- Whether a line is among the lines.
unfoldable pub has_line : String → List String → Bool
has_line q [] = false
has_line q (l ∷ lines) = (l == q) || has_line q lines

pub step_alive :
    (l : String) (s : Server)
    → user_input_step l s ≡ ok (if l == "/quit" then record s { alive = false } else s)
unfolding user_input_step has_prefix
step_alive l s = elim (Bool-cases (l == "/quit")) [
  | inl quits ↦ rw ((eq_iff l "/quit").0 quits)
  | inr other ↦ rw other (ground arith)
]

dead : (lines : List String) (s : Server) → s.alive ≡ false → user_input_task lines s ≡ ok s
unfolding user_input_task
dead [] s h = refl
dead (l ∷ lines) s h = ground arith

-- The loop over the lines of the server's user, begun while the server is alive, returns without a
-- fault, and the server is then dead just if one of the lines is /quit, whatever the others are.
pub user_input_task_quits :
    (lines : List String) (s : Server)
    → s.alive ≡ true
    → user_input_task lines s ≡ ok (record s { alive = not (has_line "/quit" lines) })
unfolding user_input_task has_line
user_input_task_quits [] s alive = ground arith
user_input_task_quits (l ∷ lines) s alive =
    ground (
      arith,
      step_alive l s,
      dead lines (record s { alive = false }),
      user_input_task_quits lines s,
    )
