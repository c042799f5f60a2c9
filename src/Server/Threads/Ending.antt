-- ===== src/Server/Threads/Ending.antt =====
-- That the destructor of the server (src/server/Server.cpp) comes to its end, and what it waits for.
use pirate_servers.Base.{
  ℕ, Bool, sym, ap, ◌∙◌, false≢true, Option, some, List, ◌∷◌, ◌++◌, ◌+◌, ◌≤◌, ◌≡◌, ◌⊎◌, inl, inr,
  refl, true, false, none, [], length, arith,
}
use pirate_servers.Base.Place.{Place, at_test, in_call, ended}
use pirate_servers.Wire.{Message}
use pirate_servers.Server.{Round, ship_listener_step}
use pirate_servers.Server.Routes.{step_alive}
use pirate_servers.Server.Threads.{
  Main, Process, Step, Steps, polled, destroying, user_ends, types_line, ship_ends, ship_killed,
  client_ends, client_killed, joins_user, joins_ship, joins_client, elsewhere, joining_user,
  joining_ship, joining_client, destroyed,
}
use pirate_servers.Server.Threads.Running.{is_closing, IsClosing}
use pirate_servers.Server.Threads.Measure.{thread_steps, lines_left, count, Steps-HasClosed}

abbrev one_if : Option Message → ℕ
one_if none = 0
one_if (some m) = 1

abbrev in_rounds : List Round → ℕ
in_rounds [] = 0
in_rounds (r ∷ rs) = one_if r.ship + one_if r.shipdeck + in_rounds rs

abbrev in_crew_rounds : List (Bool × Option Message) → ℕ
in_crew_rounds [] = 0
in_crew_rounds (r ∷ rs) = one_if r.1 + in_crew_rounds rs

-- How many messages the listeners have taken in.
abbrev pub arrived : Process → ℕ
arrived p = in_rounds p.rounds + in_crew_rounds p.crew_rounds

quiet_round : (rs : List Round) → in_rounds (rs ++ polled none none true ∷ []) ≡ in_rounds rs
quiet_round [] = refl
quiet_round (r ∷ rs) = ap (λ (n : ℕ). one_if r.ship + one_if r.shipdeck + n) (quiet_round rs)

quiet_crew_round :
    (rs : List (Bool × Option Message))
    → in_crew_rounds (rs ++ (true, none) ∷ []) ≡ in_crew_rounds rs
quiet_crew_round [] = refl
quiet_crew_round (r ∷ rs) = ap (λ (n : ℕ). one_if r.1 + n) (quiet_crew_round rs)

module _ (left : Message → Message) where
  -- A step for which no message need come, and no line if the user's thread waits for none.
  abbrev CanGoOn : Process → Type 0
  CanGoOn p =
      (q : Process) × Step left p q
      × (arrived q ≡ arrived p)
      × ((q.typed ≡ p.typed) ⊎ (p.user_input_thread ≡ in_call))

  user_goes_on :
      (p : Process) (t : Place)
      → p.main ≡ joining_user
      → p.user_input_thread ≡ t
      → p.server.alive ≡ false
      → CanGoOn p
  user_goes_on p at_test main at dead = (_, user_ends at dead, refl, inl refl)
  user_goes_on p in_call main at dead =
      (_, types_line "" p.server at (step_alive "" p.server), refl, inr at)
  user_goes_on p ended main at dead = (_, joins_user main at, refl, inl refl)

  ship_goes_on :
      (p : Process) (t : Place)
      → p.main ≡ joining_ship
      → p.ship_listener_thread ≡ t
      → p.server.alive ≡ false
      → (p.ship_listener_thread ≡ in_call → p.ship_told ≡ true)
      → CanGoOn p
  unfolding ship_listener_step
  ship_goes_on p at_test main at dead told = (_, ship_ends at dead, refl, inl refl)
  ship_goes_on p in_call main at dead told = (
    _,
    ship_killed none none [] at (told at) refl,
    ap (λ (n : ℕ). n + in_crew_rounds p.crew_rounds) (quiet_round p.rounds),
    inl refl,
  )
  ship_goes_on p ended main at dead told = (_, joins_ship main at, refl, inl refl)

  client_goes_on :
      (p : Process) (t : Place)
      → p.main ≡ joining_client
      → p.client_listener_thread ≡ t
      → p.server.alive ≡ false
      → (p.client_listener_thread ≡ in_call → p.client_told ≡ true)
      → CanGoOn p
  client_goes_on p at_test main at dead told = (_, client_ends at dead, refl, inl refl)
  client_goes_on p in_call main at dead told = (
    _,
    client_killed none at (told at),
    ap (λ (n : ℕ). in_rounds p.rounds + n) (quiet_crew_round p.crew_rounds),
    inl refl,
  )
  client_goes_on p ended main at dead told = (_, joins_client main at, refl, inl refl)

  main_goes_on :
      (p : Process) (m : Main) → p.main ≡ m → IsClosing p → (p.main ≡ destroyed) ⊎ CanGoOn p
  main_goes_on p elsewhere at h = absurd (false≢true (ap is_closing (sym at) ∙ h.closing))
  main_goes_on p joining_user at h = inr (user_goes_on p p.user_input_thread at refl h.dead)
  main_goes_on p joining_ship at h =
      inr (ship_goes_on p p.ship_listener_thread at refl h.dead h.ship)
  main_goes_on p joining_client at h =
      inr (client_goes_on p p.client_listener_thread at refl h.dead h.client)
  main_goes_on p destroyed at h = inl at

thread_steps-le : (t : Place) → thread_steps t ≤ 2
thread_steps-le at_test = omega arith
thread_steps-le in_call = omega arith
thread_steps-le ended = omega arith

lines_left-le : (t : Place) → lines_left t ≤ 1
lines_left-le at_test = omega arith
lines_left-le in_call = omega arith
lines_left-le ended = omega arith

-- Once the destructor of the server is called, where both listeners are subscribed to its kill message,
-- whatever the threads do in whatever order: no more than nine steps follow, at most one of them a line
-- of the user, and as long as the destructor is not at its end some step is possible for which no
-- message of a client, a ship or the ship deck need come, and no line if the user's thread does not
-- wait for one.
pub destructor_ends :
    (left : Message → Message) (p q : Process)
    → (run : Steps left (destroying true true p) q)
    → (count run ≤ 9)
      × (length q.typed ≤ length p.typed + 1)
      × ((q.main ≡ destroyed)
          ⊎ ((r : Process) × Step left q r
              × (arrived r ≡ arrived q)
              × ((r.typed ≡ q.typed) ⊎ (q.user_input_thread ≡ in_call))))
destructor_ends left p q run =
    let h =
      Steps-HasClosed run
        (record { closing = refl; dead = refl; ship = λ at. refl; client = λ at. refl }) in
    (
      omega (
        arith,
        h.fewer,
        thread_steps-le p.user_input_thread,
        thread_steps-le p.ship_listener_thread,
        thread_steps-le p.client_listener_thread,
      ),
      omega (arith, h.lines, lines_left-le p.user_input_thread),
      main_goes_on left q q.main refl h.valid,
    )
