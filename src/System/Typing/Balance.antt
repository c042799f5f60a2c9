-- ===== src/System/Typing/Balance.antt =====
-- Where the texts are that the user of a running client types (src/client/Client.cpp): sent, on their
-- way to be, or lost.
use mathlib.Core.List.{append-nil, append_assoc}
use pirate_servers.Base.{
  ◌≤◌, String, ◌≡◌, refl, sym, ap, false≢true, ◌∙◌, true, List, [], ◌∷◌, ◌++◌, length, arith,
}
use pirate_servers.Wire.{Message}
use pirate_servers.Client.{Client, Effect}
use pirate_servers.Client.Tasks.{connection_step}
use pirate_servers.Client.Threads.{
  Process, Step, Steps, started, input_waits, input_ends, types_line, input_sends, connection_waits,
  connection_ends, ship_message, control_message, core_waits, core_ends, core_handles_input,
  core_handles_ship, sleeps, destroys, joins_input, joins_connection, joins_core, here, next,
  in_call,
}
use pirate_servers.Client.Threads.Order.{unsent}
use pirate_servers.System.Session.{all_from_server, all_from_server-snoc, Step-passed}
use pirate_servers.System.Texts.{texts_in, texts_of, texts_of-append}
use pirate_servers.System.Typing.{sent_texts, typed_texts, Sends, core-Sends}
use pirate_servers.System.Typing.Parts.{
  sent_texts-append, line_texts, typed_texts-snoc, unsent_texts, append-eq-nil, from_server-texts,
  line_behind,
}

-- Each text is sent, lost with the client's life, or waits for the core.
record IsBalanced (p : Process) : Type 0 where
  lost : List String
  texts :
      typed_texts p.typed
      ≡ sent_texts p.effects
        ++ (lost
            ++ (texts_of "CLIENT" p.input_queue ++ texts_of "CLIENT" (unsent p.user_input_thread)))
  few : length lost ≤ 1
  none_lost : p.client.alive ≡ true → lost ≡ []
  working : p.core_thread ≡ in_call → p.client.alive ≡ true
  no_lines : texts_of "CLIENT" p.ship_queue ≡ []

-- A step that moves no text.
same_balance :
    {p : Process} (q : Process)
    → IsBalanced p
    → q.typed ≡ p.typed
    → q.effects ≡ p.effects
    → q.input_queue ≡ p.input_queue
    → texts_of "CLIENT" (unsent q.user_input_thread)
      ≡ texts_of "CLIENT" (unsent p.user_input_thread)
    → q.client.alive ≡ p.client.alive
    → (q.core_thread ≡ in_call → q.client.alive ≡ true)
    → texts_of "CLIENT" q.ship_queue ≡ []
    → IsBalanced q
same_balance q i e1 e2 e3 e4 e5 working no_lines = record {
  lost = i.lost;
  texts = rw (e1, e2, e3, e4) i.texts;
  few = i.few;
  none_lost = λ alive. i.none_lost (sym e5 ∙ alive);
  working = working;
  no_lines = no_lines;
}

-- The core handles a message whose text stands in front of what waits.
core_moves :
    {all : List String} (rest : List String) (effects out : List Effect) (m : Message) (c' : Client)
    → (done : Sends m c' out) → all ≡ sent_texts effects ++ (texts_in "CLIENT" m ++ rest)
    → all ≡ sent_texts (effects ++ out) ++ (done.lost ++ rest)
core_moves rest effects out m c' done e =
    e
    ∙ ap (λ (l : List String). sent_texts effects ++ l)
        (ap (λ (l : List String). l ++ rest) done.balance
          ∙ append_assoc (sent_texts out) done.lost rest)
    ∙ sym (append_assoc (sent_texts effects) (sent_texts out) (done.lost ++ rest))
    ∙ ap (λ (l : List String). l ++ (done.lost ++ rest)) (sym (sent_texts-append effects out))

Step-IsBalanced :
    {p q : Process} → Step p q → all_from_server q.passed ≡ true → IsBalanced p → IsBalanced q
unfolding connection_step
Step-IsBalanced (input_waits e alive) h i =
    same_balance _ i refl refl refl (ap (λ t. texts_of "CLIENT" (unsent t)) (sym e)) refl i.working
      i.no_lines
Step-IsBalanced (input_ends e dead) h i =
    same_balance _ i refl refl refl (ap (λ t. texts_of "CLIENT" (unsent t)) (sym e)) refl i.working
      i.no_lines
Step-IsBalanced {p} (types_line input_str e) h i = record {
  lost = i.lost;
  texts =
      typed_texts-snoc p.typed input_str
      ∙ ap (λ (l : List String). l ++ line_texts input_str)
          (i.texts
            ∙ ap
                (λ t.
                  sent_texts p.effects
                  ++ (i.lost ++ (texts_of "CLIENT" p.input_queue ++ texts_of "CLIENT" (unsent t))))
                e)
      ∙ rw (unsent_texts input_str)
          (line_behind (sent_texts p.effects) i.lost (texts_of "CLIENT" p.input_queue) _);
  few = i.few;
  none_lost = i.none_lost;
  working = i.working;
  no_lines = i.no_lines;
}
Step-IsBalanced {p} (input_sends client_input e) h i = record {
  lost = i.lost;
  texts =
      i.texts
      ∙ ap
          (λ t.
            sent_texts p.effects
            ++ (i.lost ++ (texts_of "CLIENT" p.input_queue ++ texts_of "CLIENT" (unsent t))))
          e
      ∙ ap (λ (l : List String). sent_texts p.effects ++ (i.lost ++ l))
          (sym (texts_of-append "CLIENT" p.input_queue (client_input ∷ [])) ∙ sym (append-nil _));
  few = i.few;
  none_lost = i.none_lost;
  working = i.working;
  no_lines = i.no_lines;
}
Step-IsBalanced (connection_waits e alive) h i =
    same_balance _ i refl refl refl refl refl i.working i.no_lines
Step-IsBalanced (connection_ends e dead) h i =
    same_balance _ i refl refl refl refl refl i.working i.no_lines
Step-IsBalanced {p} (ship_message reqs e) h i =
    same_balance _ i refl refl refl refl refl i.working (
      texts_of-append "CLIENT" p.ship_queue (reqs ∷ [])
      ∙ rw i.no_lines (
          append-nil _
          ∙ from_server-texts reqs (ground (arith, all_from_server-snoc p.passed reqs))))
Step-IsBalanced (control_message e killed) h i =
    same_balance _ i refl refl refl refl refl i.working i.no_lines
Step-IsBalanced (core_waits e alive) h i =
    same_balance _ i refl refl refl refl refl (λ at. alive) i.no_lines
Step-IsBalanced (core_ends e dead) h i =
    same_balance _ i refl refl refl refl refl (λ at. ground arith) i.no_lines
Step-IsBalanced {p} (core_handles_input sends reqs rest c' out e first returns) h i =
    let done = core-Sends sends p.client c' out reqs returns in
    let none_yet = i.none_lost (i.working e) in
    record {
      lost = done.lost;
      texts = core_moves _ p.effects out reqs c' done (
          i.texts
          ∙ rw (none_yet, first)
              (ap (λ (l : List String). sent_texts p.effects ++ l)
                (append_assoc (texts_in "CLIENT" reqs) _ _)));
      few = done.few;
      none_lost = done.none_lost;
      working = λ at. ground arith;
      no_lines = i.no_lines;
    }
Step-IsBalanced {p} (core_handles_ship sends reqs rest c' out e first returns) h i =
    let done = core-Sends sends p.client c' out reqs returns in
    let none_yet = i.none_lost (i.working e) in
    let waits : texts_of "CLIENT" (reqs ∷ rest) ≡ [] =
      ap (texts_of "CLIENT") (sym first) ∙ i.no_lines in
    let no_text = (append-eq-nil (texts_in "CLIENT" reqs) (texts_of "CLIENT" rest) waits).0 in
    record {
      lost = done.lost;
      texts = core_moves _ p.effects out reqs c' done (i.texts ∙ rw (none_yet, no_text) refl);
      few = done.few;
      none_lost = done.none_lost;
      working = λ at. ground arith;
      no_lines = (append-eq-nil (texts_in "CLIENT" reqs) (texts_of "CLIENT" rest) waits).1;
    }
Step-IsBalanced (sleeps e alive) h i = i
Step-IsBalanced (destroys e dead) h i =
    same_balance _ i refl refl refl refl (sym dead)
      (λ at. absurd (false≢true (sym dead ∙ i.working at))) i.no_lines
Step-IsBalanced (joins_input e joined) h i =
    same_balance _ i refl refl refl refl refl i.working i.no_lines
Step-IsBalanced (joins_connection e joined) h i =
    same_balance _ i refl refl refl refl refl i.working i.no_lines
Step-IsBalanced (joins_core e joined) h i =
    same_balance _ i refl refl refl refl refl i.working i.no_lines

Steps-IsBalanced :
    {c : Client} {p : Process}
    → Steps (started c) p
    → all_from_server p.passed ≡ true
    → IsBalanced p
Steps-IsBalanced here h = record {
  lost = [];
  texts = refl;
  few = omega arith;
  none_lost = λ alive. refl;
  working = λ at. cc;
  no_lines = refl;
}
Steps-IsBalanced (next before s) h = Step-IsBalanced s h (Steps-IsBalanced before (Step-passed s h))

-- Whatever the threads of a client do in whatever order, if no message that came from the ship begins
-- as one of the user's: the texts that the user has typed (the lines that are neither empty nor
-- commands) are those that the client has sent, then at most one that is lost, then those that still
-- wait for the core or to be sent to it, in this order. While the client is alive, none is lost.
pub texts_go_out :
    (c : Client) (p : Process)
    → Steps (started c) p
    → all_from_server p.passed ≡ true
    → (lost : List String) × (typed_texts p.typed
        ≡ sent_texts p.effects
          ++ (lost
              ++ (texts_of "CLIENT" p.input_queue
                  ++ texts_of "CLIENT" (unsent p.user_input_thread))))
      × (length lost ≤ 1)
      × (p.client.alive ≡ true → lost ≡ [])
texts_go_out c p steps h = let i = Steps-IsBalanced steps h in (i.lost, i.texts, i.few, i.none_lost)
