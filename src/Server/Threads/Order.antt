-- ===== src/Server/Threads/Order.antt =====
-- In which order the listeners of the server (src/server/Server.cpp), beside each other, pass messages
-- on between the crew and the ship deck.
use mathlib.Core.List.{append-nil, append_assoc}
use pirate_servers.Base.{
  ◌≡◌, ◌≢◌, refl, sym, ap, subst, ◌∙◌, Bool, true, false, not, ◌&&◌, Option, none, some, List, [],
  ◌∷◌, ◌++◌, arith, if◌then◌else◌,
}
use pirate_servers.Base.Interleaving.{
  Interleaving, none_left, from_first, from_second, append_first, append_second,
}
use pirate_servers.Base.Outcome.{ok, ok_injective, bind-eq-ok, ◌>>=◌}
use pirate_servers.Base.Place.{Place, at_test, in_call, ended}
use pirate_servers.Wire.{Message}
use pirate_servers.Server.{
  Server, Passed, to_shipdeck, to_clients, Round, ship_listener_step, ship_listener_task,
  client_listener_task,
}
use pirate_servers.Server.Threads.{
  Process, Step, Steps, polled, started, user_waits, user_ends, types_line, ship_waits, ship_ends,
  ship_round, ship_killed, client_waits, client_ends, client_round, client_killed, destroys,
  joins_user, joins_ship, joins_client, here, next,
}
use pirate_servers.Server.Threads.Traffic.{to_deck, to_crew, from_crew}

-- Whether a loop over rounds goes on behind them.
abbrev goes_on : List Round → Bool
goes_on [] = true
goes_on (r ∷ rs) = (r.alive && not r.control) && goes_on rs

abbrev all_alive : List (Bool × Option Message) → Bool
all_alive [] = true
all_alive (r ∷ rs) = r.0 && all_alive rs

to_deck-crew :
    (rs : List (Bool × Option Message))
    → all_alive rs ≡ true
    → (to_deck (client_listener_task rs) ≡ from_crew rs) × (to_crew (client_listener_task rs) ≡ [])
unfolding to_deck to_crew from_crew client_listener_task
to_deck-crew [] h = (refl, refl)
to_deck-crew ((false, m) ∷ rs) h = cc
to_deck-crew ((true, none) ∷ rs) h = to_deck-crew rs h
to_deck-crew ((true, some m) ∷ rs) h =
    let (deck, crew) = to_deck-crew rs h in (ap (◌∷◌ m) deck, crew)

client_listener_task-snoc :
    (rs : List (Bool × Option Message)) (ready : Option Message)
    → all_alive rs ≡ true
    → client_listener_task (rs ++ (true, ready) ∷ [])
      ≡ client_listener_task rs ++ client_listener_task ((true, ready) ∷ [])
unfolding client_listener_task
client_listener_task-snoc [] ready h = refl
client_listener_task-snoc ((false, m) ∷ rs) ready h = cc
client_listener_task-snoc ((true, none) ∷ rs) ready h = client_listener_task-snoc rs ready h
client_listener_task-snoc ((true, some m) ∷ rs) ready h =
    ap (◌∷◌ (to_shipdeck m)) (client_listener_task-snoc rs ready h)

all_alive-snoc :
    (rs : List (Bool × Option Message)) (ready : Option Message)
    → all_alive rs ≡ true
    → all_alive (rs ++ (true, ready) ∷ []) ≡ true
all_alive-snoc [] ready h = refl
all_alive-snoc (r ∷ rs) ready h = ground (arith, all_alive-snoc rs ready)

goes_on-snoc :
    (rs : List Round) (ship shipdeck : Option Message) (control : Bool)
    → goes_on rs ≡ true
    → goes_on (rs ++ polled ship shipdeck control ∷ []) ≡ not control
goes_on-snoc [] ship shipdeck true h = refl
goes_on-snoc [] ship shipdeck false h = refl
goes_on-snoc (r ∷ rs) ship shipdeck control h =
    ground (arith, goes_on-snoc rs ship shipdeck control)

to_deck-order :
    {xs ys zs : List Passed}
    → Interleaving xs ys zs
    → Interleaving (to_deck xs) (to_deck ys) (to_deck zs)
unfolding to_deck
to_deck-order none_left = none_left
to_deck-order (from_first {x = to_shipdeck m} i) = from_first (to_deck-order i)
to_deck-order (from_first {x = to_clients m} i) = to_deck-order i
to_deck-order (from_second {y = to_shipdeck m} i) = from_second (to_deck-order i)
to_deck-order (from_second {y = to_clients m} i) = to_deck-order i

to_crew-order :
    {xs ys zs : List Passed} → Interleaving xs ys zs → to_crew ys ≡ [] → to_crew zs ≡ to_crew xs
unfolding to_crew
to_crew-order none_left e = refl
to_crew-order (from_first {x = to_shipdeck m} i) e = to_crew-order i e
to_crew-order (from_first {x = to_clients m} i) e = ap (◌∷◌ m) (to_crew-order i e)
to_crew-order (from_second {y = to_shipdeck m} i) e = to_crew-order i e
to_crew-order (from_second {y = to_clients m} i) e = cc

module _ (left : Message → Message) where
  ship_listener_task-next :
      (r : Round) (rs : List Round)
      → (r.alive && not r.control) ≡ true
      → ship_listener_task left (r ∷ rs) ≡ (
          ship_listener_step left r >>= λ out.
          ship_listener_task left rs >>= λ more. ok (out ++ more))
  unfolding ship_listener_task
  ship_listener_task-next r rs h =
      let alive : r.alive ≡ true = ground arith in
      let quiet : r.control ≡ false = ground arith in rw (alive, quiet) refl

  ship_listener_task-single :
      (ship shipdeck : Option Message) (control : Bool) (more : List Passed)
      → ship_listener_step left (polled ship shipdeck control) ≡ ok more
      → ship_listener_task left (polled ship shipdeck control ∷ []) ≡ ok more
  unfolding ship_listener_task
  ship_listener_task-single ship shipdeck true more e = rw e refl
  ship_listener_task-single ship shipdeck false more e = rw (e, append-nil more) refl

  ship_listener_task-snoc :
      (rs : List Round) (ship shipdeck : Option Message) (control : Bool) (out more : List Passed)
      → goes_on rs ≡ true
      → ship_listener_task left rs ≡ ok out
      → ship_listener_step left (polled ship shipdeck control) ≡ ok more
      → ship_listener_task left (rs ++ polled ship shipdeck control ∷ []) ≡ ok (out ++ more)
  ship_listener_task-snoc [] ship shipdeck control out more h e1 e2 =
      let first : [] ≡ out = unfold ship_listener_task in ok_injective e1 in
      ship_listener_task-single ship shipdeck control more e2
      ∙ ap (λ (o : List Passed). ok (o ++ more)) first
  ship_listener_task-snoc (r ∷ rs) ship shipdeck control out more h e1 e2 =
      let open_round : (r.alive && not r.control) ≡ true = ground arith in
      let (first, s, e) =
        bind-eq-ok (ship_listener_step left r) _
          (sym (ship_listener_task-next r rs open_round) ∙ e1) in
      let (rest, t, whole) = bind-eq-ok (ship_listener_task left rs) _ e in
      let later = ship_listener_task-snoc rs ship shipdeck control rest more (ground arith) t e2 in
      rw (ship_listener_task-next r (rs ++ polled ship shipdeck control ∷ []) open_round, s, later)
        (ap ok (
          sym (append_assoc first rest more)
          ∙ ap (λ (o : List Passed). o ++ more) (ok_injective whole)))

  -- Each listener has run its loop over what it took in, and what is passed on is made of what the
  -- loops pass on, each in its order.
  record HasRun (ship_thread : Place) (rounds : List Round)
      (crew_rounds : List (Bool × Option Message)) (passed : List Passed) : Type 0 where
    ship_out : List Passed
    ship_ran : ship_listener_task left rounds ≡ ok ship_out
    open_rounds : ship_thread ≢ ended → goes_on rounds ≡ true
    alive_rounds : all_alive crew_rounds ≡ true
    order : Interleaving ship_out (client_listener_task crew_rounds) passed

  abbrev Runs : Process → Type 0
  Runs p = HasRun p.ship_listener_thread p.rounds p.crew_rounds p.passed

  started-HasRun : (s : Server) → Runs (started s)
  unfolding ship_listener_task client_listener_task
  started-HasRun s = record {
    ship_out = [];
    ship_ran = refl;
    open_rounds = λ running. refl;
    alive_rounds = refl;
    order = none_left;
  }

  ship_rounds :
      {crew_rounds : List (Bool × Option Message)} {passed : List Passed} (rounds : List Round)
      (ship shipdeck : Option Message) (control : Bool) (out : List Passed)
      → ship_listener_step left (polled ship shipdeck control) ≡ ok out
      → HasRun in_call rounds crew_rounds passed
      → HasRun
          (if control then ended else at_test)
          (rounds ++ polled ship shipdeck control ∷ [])
          crew_rounds
          (passed ++ out)
  ship_rounds rounds ship shipdeck control out returns h =
      let was_open : goes_on rounds ≡ true = h.open_rounds (ground arith) in
      record {
        ship_out = h.ship_out ++ out;
        ship_ran =
            ship_listener_task-snoc rounds ship shipdeck control h.ship_out out was_open h.ship_ran
              returns;
        open_rounds = λ running. goes_on-snoc rounds ship shipdeck control was_open ∙ ground arith;
        alive_rounds = h.alive_rounds;
        order = append_first out h.order;
      }

  client_rounds :
      {ship_thread : Place} {rounds : List Round} {passed : List Passed}
      (crew_rounds : List (Bool × Option Message)) (ready : Option Message)
      → HasRun ship_thread rounds crew_rounds passed
      → HasRun ship_thread rounds
          (crew_rounds ++ (true, ready) ∷ [])
          (passed ++ client_listener_task ((true, ready) ∷ []))
  client_rounds {passed} crew_rounds ready h = record {
    ship_out = h.ship_out;
    ship_ran = h.ship_ran;
    open_rounds = h.open_rounds;
    alive_rounds = all_alive-snoc crew_rounds ready h.alive_rounds;
    order =
        subst
          (λ (out : List Passed).
            Interleaving h.ship_out out (passed ++ client_listener_task ((true, ready) ∷ [])))
          (sym (client_listener_task-snoc crew_rounds ready h.alive_rounds))
          (append_second (client_listener_task ((true, ready) ∷ [])) h.order);
  }

  -- A thread that does not end yet, or does, has run the same.
  moves :
      {t t' : Place} {rounds : List Round} {crew_rounds : List (Bool × Option Message)}
      {passed : List Passed}
      → t ≢ ended
      → HasRun t rounds crew_rounds passed
      → HasRun t' rounds crew_rounds passed
  moves running h = record {
    ship_out = h.ship_out;
    ship_ran = h.ship_ran;
    open_rounds = λ still. h.open_rounds running;
    alive_rounds = h.alive_rounds;
    order = h.order;
  }

  Step-Runs : {p q : Process} → Step left p q → Runs p → Runs q
  Step-Runs (user_waits at living) h = h
  Step-Runs (user_ends at dead) h = h
  Step-Runs (types_line input_str s at returns) h = h
  Step-Runs (ship_waits at living) h = moves (ground arith) h
  Step-Runs (ship_ends at dead) h = moves (ground arith) h
  Step-Runs {p} (ship_round ship shipdeck out at ready returns) h =
      ship_rounds p.rounds ship shipdeck false out returns (moves (ground arith) h)
  Step-Runs {p} (ship_killed ship shipdeck out at told returns) h =
      ship_rounds p.rounds ship shipdeck true out returns (moves (ground arith) h)
  Step-Runs (client_waits at living) h = h
  Step-Runs (client_ends at dead) h = h
  Step-Runs {p} (client_round reqs at) h = client_rounds p.crew_rounds (some reqs) h
  Step-Runs {p} (client_killed ready at told) h = client_rounds p.crew_rounds ready h
  Step-Runs (destroys ship_subscribed client_subscribed at) h = h
  Step-Runs (joins_user at joined) h = h
  Step-Runs (joins_ship at joined) h = h
  Step-Runs (joins_client at joined) h = h

  Steps-Runs : {s : Server} {p : Process} → Steps left (started s) p → Runs p
  Steps-Runs {s} here = started-HasRun s
  Steps-Runs (next before s) = Step-Runs s (Steps-Runs before)

  -- Whatever the threads of a server do in whatever order: the ship listener has run its loop over its
  -- rounds; the crew has been sent what that loop sends it, in its order; and the deck has been sent
  -- what that loop sends it and the messages of the crew, each once and each in its order.
  pub server_passes_in_order :
      (s : Server) (p : Process)
      → Steps left (started s) p
      → (out : List Passed) × (ship_listener_task left p.rounds ≡ ok out)
        × (to_crew p.passed ≡ to_crew out)
        × Interleaving (to_deck out) (from_crew p.crew_rounds) (to_deck p.passed)
  server_passes_in_order s p steps =
      let h = Steps-Runs steps in
      let (deck, crew) = to_deck-crew p.crew_rounds h.alive_rounds in
      (
        h.ship_out,
        h.ship_ran,
        to_crew-order h.order crew,
        subst (λ (m : List Message). Interleaving (to_deck h.ship_out) m (to_deck p.passed)) deck
            (to_deck-order h.order),
      )
