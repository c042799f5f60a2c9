-- ===== src/System/Typing.antt =====
-- What the user of a client types, against the texts that the client sends (src/client/Client.cpp).
pub mod Parts
pub mod Balance
use mathlib.Core.List.{append-nil, append_assoc}
use pirate_servers.Base.{
  ℕ, zero, suc, ◌+◌, ◌≤◌, String, ◌≡◌, refl, sym, ap, ◌∙◌, subst, Bool, true, false, ◌&&◌, ◌||◌,
  ◌==◌, eq_iff, false≢true, if◌then◌else◌, Option, none, some, List, [], ◌∷◌, ◌++◌, length, arith,
  Bool-cases, ◌⊎◌, inl, inr,
}
use pirate_servers.Base.Outcome.{ok, ok_injective, bind-eq-ok, ◌>>=◌}
use pirate_servers.Base.Text.{has_prefix, substr, substr_from}
use pirate_servers.System.Texts.{texts_in}
use pirate_servers.Wire.{Message, frame}
use pirate_servers.Client.{Client, Effect, sent, printed}
use pirate_servers.Client.Quiet.{is_quiet, ship-Gives, cabin-Gives}
use pirate_servers.Client.Tasks.{core_step}
use pirate_servers.Client.User.{
  attempt, send_once, handle_user_input, handle_user_input_command, handle_user_input_text,
}

-- The texts that were sent.
abbrev pub sent_texts : List Effect → List String
sent_texts [] = []
sent_texts (printed s ∷ effects) = sent_texts effects
sent_texts (sent m ∷ effects) = texts_in "CREW" m ++ sent_texts effects

-- The lines that are texts: not empty, and no commands.
abbrev pub typed_texts : List String → List String
typed_texts [] = []
typed_texts (input_str ∷ typed) =
    (if (input_str == "") || has_prefix "/" input_str then [] else input_str ∷ [])
    ++ typed_texts typed

quiet-sent_texts : (effects : List Effect) → is_quiet effects ≡ true → sent_texts effects ≡ []
quiet-sent_texts [] h = refl
quiet-sent_texts (printed s ∷ effects) h = quiet-sent_texts effects h
quiet-sent_texts (sent m ∷ effects) h = absurd (false≢true h)

-- What the core does with the text of a message: it is sent, or it is lost with the client's life.
pub record Sends (m : Message) (c' : Client) (effects : List Effect) : Type 0 where
  pub lost : List String
  pub balance : texts_in "CLIENT" m ≡ sent_texts effects ++ lost
  pub few : length lost ≤ 1
  pub none_lost : c'.alive ≡ true → lost ≡ []

not_both : (s a b : String) → (s == a) ≡ true → (a == b) ≡ false → (s == b) ≡ false
not_both s a b same other = ap (λ (t : String). t == b) ((eq_iff s a).0 same) ∙ other

pub none_in :
    (who sender : String) (frames : Message)
    → (sender == who) ≡ false
    → texts_in who (sender ∷ frames) ≡ []
none_in who sender [] other = refl
none_in who sender (kind ∷ []) other = refl
none_in who sender (kind ∷ text ∷ rest) other = rw other refl

other_kind :
    (sender kind text : String) (rest : Message)
    → (kind == "TEXT") ≡ false
    → texts_in "CLIENT" (sender ∷ kind ∷ text ∷ rest) ≡ []
other_kind sender kind text rest other = ground arith

all_sent :
    (m : Message) (c' : Client) (effects : List Effect)
    → texts_in "CLIENT" m ≡ sent_texts effects
    → Sends m c' effects
all_sent m c' effects e = record {
  lost = [];
  balance = e ∙ sym (append-nil (sent_texts effects));
  few = omega arith;
  none_lost = λ alive. refl;
}

one_lost :
    (m : Message) (c' : Client) (effects : List Effect) (text : String)
    → texts_in "CLIENT" m ≡ text ∷ []
    → sent_texts effects ≡ []
    → c'.alive ≡ false
    → Sends m c' effects
one_lost m c' effects text e1 e2 dead = record {
  lost = text ∷ [];
  balance = e1 ∙ ap (λ (l : List String). l ++ text ∷ []) (sym e2);
  few = omega arith;
  none_lost = λ alive. absurd (false≢true (sym dead ∙ alive));
}

attempt-cases :
    (sends : ℕ → Bool) (left i : ℕ) (msg : Message)
    → (attempt sends left i msg ≡ (true, sent msg ∷ [])) ⊎ (attempt sends left i msg ≡ (false, []))
unfolding attempt
attempt-cases sends zero i msg = inr refl
attempt-cases sends (suc left) i msg = elim (Bool-cases (sends i)) [
  | inl now ↦ inl (rw now refl)
  | inr later ↦ rw later (attempt-cases sends left (i + 1) msg)
]

module _ (sends : ℕ → Bool) (c c' : Client) (effects : List Effect) where
  text-Sends :
      (sender kind text : String) (rest : Message)
      → (sender == "CLIENT") ≡ true
      → (kind == "TEXT") ≡ true
      → handle_user_input_text sends (sender ∷ kind ∷ text ∷ rest) c ≡ ok (c', effects)
      → Sends (sender ∷ kind ∷ text ∷ rest) c' effects
  unfolding handle_user_input_text
  text-Sends sender kind text rest e1 e2 e =
      let m = sender ∷ kind ∷ text ∷ rest in
      elim (attempt-cases sends 10 0 ("CREW" ∷ "TEXT" ∷ text ∷ [])) [
        | inl reached ↦
            let now : ok (c, sent ("CREW" ∷ "TEXT" ∷ text ∷ []) ∷ []) ≡ ok (c', effects) =
              rw reached at e in
            all_sent m c' effects (rw (e1, e2) (ap (λ x. sent_texts x.1) (ok_injective now)))
        | inr given_up ↦
            let now : ok (record c { alive = false }, []) ≡ ok (c', effects) = rw given_up at e in
            one_lost m c' effects text (rw (e1, e2) refl)
              (sym (ap (λ x. sent_texts x.1) (ok_injective now)))
              (sym (ap (λ x. x.0.alive) (ok_injective now)))
      ]

  attempt_quiet :
      (command : String) (left i : ℕ)
      → sent_texts (attempt sends left i ("CREW" ∷ "COMMAND" ∷ command ∷ [])).1 ≡ []
  attempt_quiet command left i =
      elim (attempt-cases sends left i ("CREW" ∷ "COMMAND" ∷ command ∷ [])) [
        | inl reached ↦ rw reached refl
        | inr given_up ↦ rw given_up refl
      ]

  join_quiet :
      (command : String)
      → (do
        name ← substr command 0 5
        argument ← substr_from command 6
        send_once sends ("CREW" ∷ "COMMAND" ∷ name ∷ argument ∷ []) c)
        ≡ ok (c', effects)
      → sent_texts effects ≡ []
  unfolding send_once
  join_quiet command e =
      let (name, _, rest) = bind-eq-ok (substr command 0 5) _ e in
      let (argument, _, last) = bind-eq-ok (substr_from command 6) _ rest in ground arith

  command_quiet :
      (sender kind command : String) (rest : Message)
      → handle_user_input_command sends (sender ∷ kind ∷ command ∷ rest) c ≡ ok (c', effects)
      → sent_texts effects ≡ []
  unfolding handle_user_input_command send_once
  command_quiet sender kind command rest e = elim (Bool-cases (command == "/quit")) [
    | inl quits ↦
        let now : ok (
          record c { alive = false },
          (attempt sends 10 0 ("CREW" ∷ "COMMAND" ∷ command ∷ [])).1,
        )
            ≡ ok (c', effects) =
          rw quits at e in
        sym (ap (λ x. sent_texts x.1) (ok_injective now)) ∙ attempt_quiet command 10 0
    | inr stays ↦ elim (Bool-cases (has_prefix "/join" command)) [
      | inl joins ↦ join_quiet command (rw (stays, joins) at e)
      | inr other ↦ ground arith
    ]
  ]

  short_quiet :
      (sender kind : String)
      → handle_user_input sends (sender ∷ kind ∷ []) c ≡ ok (c', effects)
      → sent_texts effects ≡ []
  unfolding handle_user_input handle_user_input_command handle_user_input_text
  short_quiet sender kind e = ground arith

  user-Sends :
      (sender : String) (frames : Message)
      → (sender == "CLIENT") ≡ true
      → handle_user_input sends (sender ∷ frames) c ≡ ok (c', effects)
      → Sends (sender ∷ frames) c' effects
  unfolding handle_user_input
  user-Sends sender [] mine e = cc
  user-Sends sender (kind ∷ []) mine e =
      all_sent (sender ∷ kind ∷ []) c' effects (sym (short_quiet sender kind e))
  user-Sends sender (kind ∷ text ∷ rest) mine e = elim (Bool-cases (kind == "COMMAND")) [
    | inl command ↦ all_sent (sender ∷ kind ∷ text ∷ rest) c' effects (
        other_kind sender kind text rest (not_both kind "COMMAND" "TEXT" command refl)
        ∙ sym (command_quiet sender kind text rest (rw command at e)))
    | inr other ↦ elim (Bool-cases (kind == "TEXT")) [
      | inl is_text ↦ text-Sends sender kind text rest mine is_text (rw (other, is_text) at e)
      | inr neither ↦
          let now : ok (c, []) ≡ ok (c', effects) = rw (other, neither) at e in
          all_sent (sender ∷ kind ∷ text ∷ rest) c' effects
            (other_kind sender kind text rest neither ∙ ap (λ x. sent_texts x.1) (ok_injective now))
    ]
  ]

  quiet-Sends :
      (sender : String) (frames : Message)
      → (sender == "CLIENT") ≡ false
      → is_quiet effects ≡ true
      → Sends (sender ∷ frames) c' effects
  quiet-Sends sender frames other quiet =
      all_sent (sender ∷ frames) c' effects
        (none_in "CLIENT" sender frames other ∙ sym (quiet-sent_texts effects quiet))

  pub core-Sends : (m : Message) → core_step sends m c ≡ ok (c', effects) → Sends m c' effects
  unfolding core_step
  core-Sends [] e = cc
  core-Sends (sender ∷ frames) e = elim (Bool-cases (sender == "SHIP")) [
    | inl ship ↦
        quiet-Sends sender frames (not_both sender "SHIP" "CLIENT" ship refl)
          ((ship-Gives (sender ∷ frames) c).at c' effects (rw ship at e))
    | inr other ↦ elim (Bool-cases (sender == "CABIN")) [
      | inl cabin ↦
          quiet-Sends sender frames (not_both sender "CABIN" "CLIENT" cabin refl)
            ((cabin-Gives (sender ∷ frames) c).at c' effects (rw (other, cabin) at e))
      | inr another ↦ elim (Bool-cases (sender == "CLIENT")) [
        | inl mine ↦ user-Sends sender frames mine (rw (other, another, mine) at e)
        | inr unknown ↦
            let now : ok (c, []) ≡ ok (c', effects) = rw (other, another, unknown) at e in
            all_sent (sender ∷ frames) c' effects
              (none_in "CLIENT" sender frames unknown ∙ ap (λ x. sent_texts x.1) (ok_injective now))
      ]
    ]
  ]
