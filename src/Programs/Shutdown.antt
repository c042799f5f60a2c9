-- ===== src/Programs/Shutdown.antt =====
-- How the process of server_main.cpp ends: from the wait for the server's end to the destructors,
-- with the threads of the two lobbies beside it.
use pirate_servers.Base.{◌≡◌, ◌≢◌, refl, Bool, true, false, subst, arith, ◌⊎◌, inl, inr, Bool-cases}

-- Where `main` stands: in its loop, at the join of a lobby's thread, or behind the joins, where
-- the objects are destroyed.
pub data Main : Type 0 where
  waiting joining_cabins joining_another leaving : Main

-- Whether the server is alive, whether the threads of the lobbies run, and whether the ship deck's
-- destructor has sent its kill message.
pub record Process : Type 0 where
  pub main : Main
  pub server_alive : Bool
  pub cabins_thread : Bool
  pub another_cabin_thread : Bool
  pub killed : Bool

-- One step of some thread. A lobby that could not register has a thread that has ended already; the
-- thread of one that is registered ends by the kill message alone.
pub data Step (p : Process) : Process → Type 0 where
  server_dies : p.server_alive ≡ true → Step p (record p { server_alive = false })
  sleep : p.main ≡ waiting → p.server_alive ≡ true → Step p p
  stop_waiting :
      p.main ≡ waiting → p.server_alive ≡ false → Step p (record p { main = joining_cabins })
  join_cabins :
      p.main ≡ joining_cabins
      → p.cabins_thread ≡ false
      → Step p (record p { main = joining_another })
  join_another :
      p.main ≡ joining_another
      → p.another_cabin_thread ≡ false
      → Step p (record p { main = leaving })
  destroy_ship_deck : p.main ≡ leaving → Step p (record p { killed = true })
  cabins_killed : p.killed ≡ true → Step p (record p { cabins_thread = false })
  another_killed : p.killed ≡ true → Step p (record p { another_cabin_thread = false })

abbrev pub started : Bool → Bool → Process
started first second = record {
  main = waiting;
  server_alive = true;
  cabins_thread = first;
  another_cabin_thread = second;
  killed = false;
}

pub data Reach (first second : Bool) : Process → Type 0 where
  here : Reach first second (started first second)
  next : {p q : Process} → Reach first second p → Step p q → Reach first second q

-- What `main` has joined.
abbrev Past : Main → Bool → Bool → Type 0
Past waiting first second = Unit {0}
Past joining_cabins first second = Unit {0}
Past joining_another first second = first ≡ false
Past leaving first second = (first ≡ false) × (second ≡ false)

record IsBlocked (first second : Bool) (p : Process) : Type 0 where
  joined : Past p.main first second
  unkilled : p.killed ≡ true → p.main ≡ leaving
  first_runs : p.killed ≡ false → p.cabins_thread ≡ first
  second_runs : p.killed ≡ false → p.another_cabin_thread ≡ second

Step-IsBlocked :
    {first second : Bool} {p q : Process}
    → Step p q
    → IsBlocked first second p
    → IsBlocked first second q
Step-IsBlocked (server_dies alive) b = ground arith
Step-IsBlocked (sleep at_wait alive) b = b
Step-IsBlocked (stop_waiting at_wait dead) b = ground arith
Step-IsBlocked (join_cabins at_join gone) b = ground arith
Step-IsBlocked (join_another at_join gone) b = ground arith
Step-IsBlocked (destroy_ship_deck at_end) b = ground arith
Step-IsBlocked (cabins_killed killed) b = ground arith
Step-IsBlocked (another_killed killed) b = ground arith

started-IsBlocked : (first second : Bool) → IsBlocked first second (started first second)
started-IsBlocked first second = record {
  joined = tt;
  unkilled = λ e. cc;
  first_runs = λ e. refl;
  second_runs = λ e. refl;
}

Reach-IsBlocked :
    {first second : Bool} {p : Process} → Reach first second p → IsBlocked first second p
Reach-IsBlocked {first} {second} here = started-IsBlocked first second
Reach-IsBlocked (next r s) = Step-IsBlocked s (Reach-IsBlocked r)

past_joins :
    {first second : Bool} {p : Process}
    → p.main ≡ leaving
    → IsBlocked first second p
    → (first ≡ false) × (second ≡ false)
past_joins {first} {second} at_end b = subst (λ m. Past m first second) at_end b.joined

-- Whatever the threads do in whatever order, where a lobby is registered `main` does not get past
-- the joins to the destructors, also after the server has died, and no kill message is sent.
pub hangs_with_lobby :
    {first second : Bool} (p : Process)
    → Reach first second p
    → (first ≡ true) ⊎ (second ≡ true)
    → (p.main ≢ leaving) × (p.killed ≡ false)
hangs_with_lobby {first} {second} p r registered =
    let b = Reach-IsBlocked r in
    let blocked : p.main ≢ leaving =
      λ at_end. let (gone, also) = past_joins at_end b in ground arith in
    (
      blocked,
      elim (Bool-cases p.killed) [
        | inl killed ↦ absurd (blocked (b.unkilled killed))
        | inr not_yet ↦ not_yet
      ],
    )

-- Without a registered lobby it can get there.
leaves_without_lobbies :
    (p : Process) × Reach false false p × (p.main ≡ leaving) × (p.killed ≡ true)
leaves_without_lobbies = (
  _,
  next
      (next
        (next (next (next here (server_dies refl)) (stop_waiting refl refl))
          (join_cabins refl refl))
        (join_another refl refl))
      (destroy_ship_deck refl),
  refl,
  refl,
)
