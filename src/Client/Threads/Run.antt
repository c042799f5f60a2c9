-- ===== src/Client/Threads/Run.antt =====
-- What the core of src/client/Client.cpp has done at each time: its loop over the messages that it
-- handled.
use pirate_servers.Base.{
  Bool-cases, inl, inr, ℕ, ◌≡◌, refl, sym, ap, ◌∙◌, subst, false≢true, Bool, true, false, List, [],
  ◌∷◌, ◌++◌,
}
use mathlib.Core.List.{append-nil, append_assoc}
use pirate_servers.Base.Outcome.{Outcome, ok_injective, bind-eq-ok, ok, ◌>>=◌}
use pirate_servers.Wire.{Message}
use pirate_servers.Client.{Client, Effect}
use pirate_servers.Client.Tasks.{core_step, core_task}
use pirate_servers.Client.Threads.{
  Process, Step, Steps, started, input_waits, input_ends, types_line, input_sends, connection_waits,
  connection_ends, ship_message, control_message, core_waits, core_ends, core_handles_input,
  core_handles_ship, sleeps, destroys, joins_input, joins_connection, joins_core, here, next,
  in_call,
}

module _ (first : (ℕ → Bool) × Message) (rest : List ((ℕ → Bool) × Message)) (c : Client) where
  core_task_dead : c.alive ≡ false → core_task (first ∷ rest) c ≡ ok (c, [])
  unfolding core_task
  core_task_dead dead = rw dead refl

  abbrev and_then : Client × List Effect → Outcome (Client × List Effect)
  and_then x = core_task rest x.0 >>= λ y. ok (y.0, x.1 ++ y.1)

  core_task_alive :
      c.alive ≡ true → core_task (first ∷ rest) c ≡ (core_step first.0 first.1 c >>= and_then)
  unfolding core_task
  core_task_alive alive = rw alive refl

-- One more message, handled by a client that is alive after those before it.
module _ (sends : ℕ → Bool) (reqs : Message) (r' : Client × List Effect) where
  abbrev IsContinued : List ((ℕ → Bool) × Message) → Client → Client × List Effect → Type 0
  IsContinued handled c r =
      r.0.alive ≡ true
      → core_step sends reqs r.0 ≡ ok r'
      → core_task (handled ++ (sends, reqs) ∷ []) c ≡ ok (r'.0, r.1 ++ r'.1)

  core_task-snoc :
      (handled : List ((ℕ → Bool) × Message)) (c : Client) (r : Client × List Effect)
      → core_task handled c ≡ ok r
      → IsContinued handled c r
  unfolding core_task
  core_task-snoc [] c r e =
      subst (IsContinued [] c) (ok_injective e)
        (λ alive step. rw (alive, step) (rw (append-nil r'.1) refl))
  core_task-snoc (first ∷ handled) c r e = elim (Bool-cases c.alive) [
    | inl alive ↦
        let (x, steps, later) =
          bind-eq-ok (core_step first.0 first.1 c) (and_then first handled c)
            (sym (core_task_alive first handled c alive) ∙ e) in
        let (y, tasks, last) =
          bind-eq-ok (core_task handled x.0) (λ y. ok (y.0, x.1 ++ y.1)) later in
        subst (IsContinued (first ∷ handled) c) (ok_injective last) (λ live step.
          core_task_alive first (handled ++ (sends, reqs) ∷ []) c alive
          ∙ rw (steps, core_task-snoc handled x.0 y tasks live step)
              (ap (λ (l : List Effect). ok (r'.0, l)) (sym (append_assoc x.1 y.1 r'.1))))
    | inr dead ↦ λ live step. absurd (
        false≢true (
          sym dead
          ∙ ap (λ x. x.0.alive) (ok_injective (sym (core_task_dead first handled c dead) ∙ e))
          ∙ live))
  ]

-- The core has run its loop over what it handled, and waits only while the client is alive.
pub record HasRun (c : Client) (p : Process) : Type 0 where
  pub runs : core_task p.handled c ≡ ok (p.client, p.effects)
  pub live : p.core_thread ≡ in_call → p.client.alive ≡ true

Step-HasRun : {c : Client} {p q : Process} → Step p q → HasRun c p → HasRun c q
Step-HasRun (input_waits e alive) h = record { runs = h.runs; live = h.live }
Step-HasRun (input_ends e dead) h = record { runs = h.runs; live = h.live }
Step-HasRun (types_line input_str e) h = record { runs = h.runs; live = h.live }
Step-HasRun (input_sends client_input e) h = record { runs = h.runs; live = h.live }
Step-HasRun (connection_waits e alive) h = record { runs = h.runs; live = h.live }
Step-HasRun (connection_ends e dead) h = record { runs = h.runs; live = h.live }
Step-HasRun (ship_message reqs e) h = record { runs = h.runs; live = h.live }
Step-HasRun (control_message e killed) h = record { runs = h.runs; live = h.live }
Step-HasRun (core_waits e alive) h = record { runs = h.runs; live = λ at. alive }
Step-HasRun (core_ends e dead) h = record { runs = h.runs; live = λ at. cc }
Step-HasRun {c} {p} (core_handles_input sends reqs rest c' out e first returns) h = record {
  runs =
      core_task-snoc sends reqs (c', out) p.handled c (p.client, p.effects) h.runs (h.live e)
        returns;
  live = λ at. cc;
}
Step-HasRun {c} {p} (core_handles_ship sends reqs rest c' out e first returns) h = record {
  runs =
      core_task-snoc sends reqs (c', out) p.handled c (p.client, p.effects) h.runs (h.live e)
        returns;
  live = λ at. cc;
}
Step-HasRun (sleeps e alive) h = h
Step-HasRun {c} {p} (destroys e dead) h = record {
  runs = rw (sym dead) h.runs;
  live = λ at. absurd (false≢true (sym dead ∙ h.live at));
}
Step-HasRun (joins_input e joined) h = record { runs = h.runs; live = h.live }
Step-HasRun (joins_connection e joined) h = record { runs = h.runs; live = h.live }
Step-HasRun (joins_core e joined) h = record { runs = h.runs; live = h.live }

pub Steps-HasRun : {c : Client} {p : Process} → Steps (started c) p → HasRun c p
unfolding core_task
Steps-HasRun here = record { runs = refl; live = λ at. cc }
Steps-HasRun (next before s) = Step-HasRun s (Steps-HasRun before)
