-- ===== src/Server/Threads/Apart.antt =====
-- What passes through the server (src/server/Server.cpp) while no ship speaks: the two directions, each
-- on its own.
use pirate_servers.Base.{
  ◌≡◌, refl, sym, ap, ap₂, ◌∙◌, Bool, true, false, ◌&&◌, Option, none, some, List, [], ◌∷◌, ◌++◌,
  arith,
}
use mathlib.Core.List.{append-nil}
use pirate_servers.Base.Outcome.{ok, ok_injective}
use pirate_servers.Wire.{Message}
use pirate_servers.Server.{
  Server, Passed, Round, from_shipdeck, ship_listener_step, client_listener_task,
}
use pirate_servers.Server.Threads.{
  Process, Step, Steps, polled, started, user_waits, user_ends, types_line, ship_waits, ship_ends,
  ship_round, ship_killed, client_waits, client_ends, client_round, client_killed, destroys,
  joins_user, joins_ship, joins_client, here, next,
}
use pirate_servers.Server.Threads.Traffic.{
  to_deck, to_crew, from_crew, from_deck, taken, to_deck-append, to_crew-append, from_crew-snoc,
  from_deck-snoc,
}

abbrev pub is_none : Option Message → Bool
is_none none = true
is_none (some m) = false

-- Whether no ship speaks in any round.
abbrev pub no_ships : List Round → Bool
no_ships [] = true
no_ships (r ∷ rs) = is_none r.ship && no_ships rs

no_ships-snoc :
    (rs : List Round) (r : Round)
    → no_ships (rs ++ r ∷ []) ≡ true
    → (no_ships rs ≡ true) × (is_none r.ship ≡ true)
no_ships-snoc [] r h = (refl, ground arith)
no_ships-snoc (q ∷ rs) r h = ground (arith, no_ships-snoc rs r)

shipdeck_passed :
    (left : Message → Message) (m : Option Message)
    → (to_deck (from_shipdeck left [] m) ≡ []) × (to_crew (from_shipdeck left [] m) ≡ taken m)
unfolding to_deck to_crew
shipdeck_passed left none = (refl, refl)
shipdeck_passed left (some m) = (refl, refl)

crew_passed :
    (ready : Option Message)
    → let out = client_listener_task ((true, ready) ∷ []) in
      (to_deck out ≡ taken ready) × (to_crew out ≡ [])
unfolding to_deck to_crew client_listener_task
crew_passed none = (refl, refl)
crew_passed (some m) = (refl, refl)

record IsApart (rounds : List Round) (crew_rounds : List (Bool × Option Message))
    (passed : List Passed) : Type 0 where
  crew : no_ships rounds ≡ true → to_crew passed ≡ from_deck rounds
  deck : no_ships rounds ≡ true → to_deck passed ≡ from_crew crew_rounds

abbrev AreApart : Process → Type 0
AreApart p = IsApart p.rounds p.crew_rounds p.passed

client_rounds :
    {rounds : List Round} (crew_rounds : List (Bool × Option Message)) (passed : List Passed)
    (ready : Option Message)
    → IsApart rounds crew_rounds passed
    → IsApart rounds
        (crew_rounds ++ (true, ready) ∷ [])
        (passed ++ client_listener_task ((true, ready) ∷ []))
client_rounds crew_rounds passed ready h =
    let (deck, crew) = crew_passed ready in
    record {
      crew = λ quiet.
          to_crew-append passed _
          ∙ ap₂ (λ (a b : List Message). a ++ b) (h.crew quiet) crew
          ∙ append-nil _;
      deck = λ quiet.
          to_deck-append passed _
          ∙ ap₂ (λ (a b : List Message). a ++ b) (h.deck quiet) deck
          ∙ sym (from_crew-snoc crew_rounds ready);
    }

module _ (left : Message → Message) where
  quiet_step :
      (ship shipdeck : Option Message) (control : Bool) (out : List Passed)
      → ship_listener_step left (polled ship shipdeck control) ≡ ok out
      → is_none ship ≡ true
      → from_shipdeck left [] shipdeck ≡ out
  unfolding ship_listener_step
  quiet_step none shipdeck control out returns quiet = ok_injective returns
  quiet_step (some m) shipdeck control out returns quiet = cc

  ship_rounds :
      {crew_rounds : List (Bool × Option Message)} (rounds : List Round) (passed : List Passed)
      (ship shipdeck : Option Message) (control : Bool) (out : List Passed)
      → ship_listener_step left (polled ship shipdeck control) ≡ ok out
      → IsApart rounds crew_rounds passed
      → IsApart (rounds ++ polled ship shipdeck control ∷ []) crew_rounds (passed ++ out)
  ship_rounds rounds passed ship shipdeck control out returns h =
      let r = polled ship shipdeck control in
      let (deck, crew) = shipdeck_passed left shipdeck in
      let split = no_ships-snoc rounds r in
      let same = λ (quiet : no_ships (rounds ++ r ∷ []) ≡ true).
        quiet_step ship shipdeck control out returns (split quiet).1 in
      record {
        crew = λ quiet.
            to_crew-append passed out
            ∙ ap₂ (λ (a b : List Message). a ++ b) (h.crew (split quiet).0)
                (ap to_crew (sym (same quiet)) ∙ crew)
            ∙ sym (from_deck-snoc rounds r);
        deck = λ quiet.
            to_deck-append passed out
            ∙ ap₂ (λ (a b : List Message). a ++ b) (h.deck (split quiet).0)
                (ap to_deck (sym (same quiet)) ∙ deck)
            ∙ append-nil _;
      }

  Step-AreApart : {p q : Process} → Step left p q → AreApart p → AreApart q
  Step-AreApart (user_waits at living) h = h
  Step-AreApart (user_ends at dead) h = h
  Step-AreApart (types_line input_str s at returns) h = h
  Step-AreApart (ship_waits at living) h = h
  Step-AreApart (ship_ends at dead) h = h
  Step-AreApart {p} (ship_round ship shipdeck out at ready returns) h =
      ship_rounds p.rounds p.passed ship shipdeck false out returns h
  Step-AreApart {p} (ship_killed ship shipdeck out at told returns) h =
      ship_rounds p.rounds p.passed ship shipdeck true out returns h
  Step-AreApart (client_waits at living) h = h
  Step-AreApart (client_ends at dead) h = h
  Step-AreApart {p} (client_round reqs at) h = client_rounds p.crew_rounds p.passed (some reqs) h
  Step-AreApart {p} (client_killed ready at told) h = client_rounds p.crew_rounds p.passed ready h
  Step-AreApart (destroys ship_subscribed client_subscribed at) h = h
  Step-AreApart (joins_user at joined) h = h
  Step-AreApart (joins_ship at joined) h = h
  Step-AreApart (joins_client at joined) h = h

  Steps-AreApart : {s : Server} {p : Process} → Steps left (started s) p → AreApart p
  unfolding to_deck to_crew from_crew from_deck
  Steps-AreApart here = record { crew = λ quiet. refl; deck = λ quiet. refl }
  Steps-AreApart (next before s) = Step-AreApart s (Steps-AreApart before)

-- While no ship speaks, whatever the threads of a server do in whatever order: the crew has been sent
-- just what the ship listener took in from the deck, and the deck just what the other listener took in
-- from the crew, each message as it is, once and in order.
pub directions_apart :
    (left : Message → Message) (s : Server) (p : Process)
    → Steps left (started s) p
    → no_ships p.rounds ≡ true
    → (to_crew p.passed ≡ from_deck p.rounds) × (to_deck p.passed ≡ from_crew p.crew_rounds)
directions_apart left s p steps quiet =
    let h = Steps-AreApart left steps in (h.crew quiet, h.deck quiet)
