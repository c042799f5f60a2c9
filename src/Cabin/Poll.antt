-- ===== src/Cabin/Poll.antt =====
-- `poll_with_control` of src/server/Cabin.cpp: the loop that hands each message to its handler until
-- the control socket speaks. The rounds of the poll are a list: what was ready at each.
use pirate_servers.Base.{Bool, true, false, Option, none, some, List, [], ◌∷◌, ◌++◌}
use pirate_servers.Base.Outcome.{Outcome, ok, ◌>>=◌}
use pirate_servers.Wire.{Message}

-- Whether `control_sub` is ready, and the message of each socket that is.
pub record Round : Type 0 where
  pub control : Bool
  pub ready : List (Option Message)

abbrev pub Handler : Type 0 → Type 0
Handler S = Message → S → Outcome (S × List Message)

module _ {S : Type 0} where
  -- The sockets of one round, in their order. What a handler leaves goes to the next.
  unfoldable pub poll_round :
      List (Handler S) → List (Option Message) → S → Outcome (S × List Message)
  poll_round [] ready s = ok (s, [])
  poll_round (h ∷ hs) [] s = ok (s, [])
  poll_round (h ∷ hs) (none ∷ ready) s = poll_round hs ready s
  poll_round (h ∷ hs) (some reqs ∷ ready) s = do
    (s', sent) ← h reqs s
    (s'', more) ← poll_round hs ready s'
    ok (s'', sent ++ more)

  -- The loop ends with its control message; at the end of the list it waits for the next round.
  unfoldable pub poll_with_control :
      Bool → List (Handler S) → List Round → S → Outcome (S × List Message)
  poll_with_control alive handles [] s = ok (s, [])
  poll_with_control false handles (r ∷ rs) s = ok (s, [])
  poll_with_control true handles (r ∷ rs) s = elim r.control [
    | true ↦ ok (s, [])
    | false ↦ do
      (s', sent) ← poll_round handles r.ready s
      (s'', more) ← poll_with_control true handles rs s'
      ok (s'', sent ++ more)
  ]

  -- The plain specification of a loop with one socket: every message up to the control message, once
  -- and in order.
  unfoldable pub handle_all : Handler S → List Message → S → Outcome (S × List Message)
  handle_all h [] s = ok (s, [])
  handle_all h (reqs ∷ rest) s = do
    (s', sent) ← h reqs s
    (s'', more) ← handle_all h rest s'
    ok (s'', sent ++ more)

unfoldable pub before_control : List Round → List Message
before_control [] = []
before_control (r ∷ rs) = elim r.control [
  | true ↦ []
  | false ↦ elim r.ready [ some reqs ∷ _ ↦ reqs ∷ before_control rs | _ ↦ before_control rs ]
]
