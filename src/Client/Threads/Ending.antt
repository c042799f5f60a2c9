-- ===== src/Client/Threads/Ending.antt =====
-- That a client ends (src/client/Client.cpp and client_main.cpp): its threads and the destructor's
-- joins.
use pirate_servers.Base.{
  ◌+◌, ◌≤◌, ◌≡◌, ◌≢◌, refl, sym, false≢true, true, false, [], ◌∷◌, length, arith, Bool-cases, inl,
  inr,
}
use pirate_servers.Wire.{Message}
use pirate_servers.Wire.Spans.{length-append}
use pirate_servers.Client.{Client}
use pirate_servers.Client.Tasks.{input_message}
use pirate_servers.Client.Threads.{
  Place, Main, Process, Steps, started, Steps-append, input_ends, types_line, input_sends,
  connection_ends, control_message, core_ends, destroys, joins_input, joins_connection, joins_core,
  here, next, at_test, in_call, ended, sending, waiting, joining_input, joining_connection,
  joining_core, closed,
}
use pirate_servers.Client.Threads.Closing.{is_closing, IsClosing, Steps-IsClosing}

-- The threads end one by one once the client is dead and the kill message sent.
abbrev IsDead : Process → Type 0
IsDead p = (p.client.alive ≡ false) × (p.killed ≡ true)

core_closes :
    (p : Process) (t : Place ⊥)
    → IsDead p
    → p.core_thread ≡ t
    → t ≢ in_call
    → (q : Process) × Steps p q
      × IsDead q
      × (q.main ≡ p.main)
      × (q.core_thread ≡ ended)
      × (q.typed ≡ p.typed)
      × (q.passed ≡ p.passed)
core_closes p at_test dead at free =
    (_, next here (core_ends at dead.0), dead, refl, refl, refl, refl)
core_closes p in_call dead at free = absurd (free refl)
core_closes p ended dead at free = (p, here, dead, refl, at, refl, refl)
core_closes p (sending m) dead at free = absurd m

connection_closes :
    (p : Process) (t : Place ⊥)
    → IsDead p
    → p.connection_thread ≡ t
    → (q : Process) × Steps p q
      × IsDead q
      × (q.main ≡ p.main)
      × (q.core_thread ≡ p.core_thread)
      × (q.connection_thread ≡ ended)
      × (q.typed ≡ p.typed)
      × (q.passed ≡ p.passed)
connection_closes p at_test dead at =
    (_, next here (connection_ends at dead.0), dead, refl, refl, refl, refl, refl)
connection_closes p in_call dead at = (
  _,
  next (next here (control_message at dead.1)) (connection_ends refl dead.0),
  dead,
  refl,
  refl,
  refl,
  refl,
  refl,
)
connection_closes p ended dead at = (p, here, dead, refl, refl, at, refl, refl)
connection_closes p (sending m) dead at = absurd m

input_closes :
    (p : Process) (t : Place Message)
    → IsDead p
    → p.user_input_thread ≡ t
    → (q : Process) × Steps p q
      × (q.main ≡ p.main)
      × (q.core_thread ≡ p.core_thread)
      × (q.connection_thread ≡ p.connection_thread)
      × (q.user_input_thread ≡ ended)
      × (length q.typed ≤ length p.typed + 1)
      × (q.passed ≡ p.passed)
unfolding input_message
input_closes p at_test dead at =
    (_, next here (input_ends at dead.0), refl, refl, refl, refl, omega arith, refl)
input_closes p in_call dead at = (
  _,
  next (next here (types_line "" at)) (input_ends refl dead.0),
  refl,
  refl,
  refl,
  refl,
  omega (arith, length-append p.typed ("" ∷ [])),
  refl,
)
input_closes p ended dead at = (p, here, refl, refl, refl, at, omega arith, refl)
input_closes p (sending m) dead at = (
  _,
  next (next here (input_sends m at)) (input_ends refl dead.0),
  refl,
  refl,
  refl,
  refl,
  omega arith,
  refl,
)

-- And then the joins return one by one.
main_closes :
    (p : Process) (m : Main)
    → p.main ≡ m
    → is_closing m ≡ true
    → p.user_input_thread ≡ ended
    → p.connection_thread ≡ ended
    → p.core_thread ≡ ended
    → (q : Process) × Steps p q × (q.main ≡ closed) × (q.typed ≡ p.typed) × (q.passed ≡ p.passed)
main_closes p waiting at closing input connection core = absurd (false≢true closing)
main_closes p joining_input at closing input connection core = (
  _,
  next (next (next here (joins_input at input)) (joins_connection refl connection))
      (joins_core refl core),
  refl,
  refl,
  refl,
)
main_closes p joining_connection at closing input connection core =
    (_, next (next here (joins_connection at connection)) (joins_core refl core), refl, refl, refl)
main_closes p joining_core at closing input connection core =
    (_, next here (joins_core at core), refl, refl, refl)
main_closes p closed at closing input connection core = (p, here, at, refl, refl)

-- The wait ends once the client is dead.
main_waits : (m : Main) → is_closing m ≡ false → m ≡ waiting
main_waits waiting e = refl
main_waits joining_input e = absurd (false≢true (sym e))
main_waits joining_connection e = absurd (false≢true (sym e))
main_waits joining_core e = absurd (false≢true (sym e))
main_waits closed e = absurd (false≢true (sym e))

wait_ends :
    (p : Process)
    → IsClosing p
    → p.client.alive ≡ false
    → (q : Process) × Steps p q
      × IsDead q
      × (is_closing q.main ≡ true)
      × (q.core_thread ≡ p.core_thread)
      × (q.typed ≡ p.typed)
      × (q.passed ≡ p.passed)
wait_ends p h dead = elim (Bool-cases (is_closing p.main)) [
  | inl closing ↦ (p, here, (dead, h.told closing), closing, refl, refl, refl)
  | inr waits ↦
      (_, next here (destroys (main_waits p.main waits) dead), (refl, refl), refl, refl, refl, refl)
]

-- From wherever the threads stand, once the client is dead, the program can end with at most one more
-- line of the user and no more message of the ship.
pub client_closes :
    (c : Client) (p : Process)
    → Steps (started c) p
    → p.client.alive ≡ false
    → (q : Process) × Steps p q
      × (q.main ≡ closed)
      × (length q.typed ≤ length p.typed + 1)
      × (q.passed ≡ p.passed)
client_closes c p before dead =
    let h = Steps-IsClosing before in
    let (p0, s0, dead0, closing, core0, typed0, passed0) = wait_ends p h dead in
    let free : p0.core_thread ≢ in_call = ground arith in
    let (p1, s1, dead1, main1, core1, typed1, passed1) =
      core_closes p0 p0.core_thread dead0 refl free in
    let (p2, s2, dead2, main2, core2, connection2, typed2, passed2) =
      connection_closes p1 p1.connection_thread dead1 refl in
    let (p3, s3, main3, core3, connection3, input3, typed3, passed3) =
      input_closes p2 p2.user_input_thread dead2 refl in
    let (q, s4, done, typed4, passed4) =
      main_closes p3 p3.main refl (ground arith) input3 (ground arith) (ground arith) in
    (
      q,
      Steps-append (Steps-append (Steps-append (Steps-append s0 s1) s2) s3) s4,
      done,
      ground arith,
      ground arith,
    )
