-- ===== src/Client/Tests.antt =====
-- The theorems on src/client/Client.cpp at concrete lines and messages.
use pirate_servers.Base.{ℕ, String, ◌≡◌, ◌↔◌, refl, Bool, true, false, [], ◌∷◌, nat_eq, arith}
use pirate_servers.Base.Outcome.{ok, err, bad_substr}
use pirate_servers.Client.{Client, new_client, sent, printed}
use pirate_servers.Client.Ship.{print_more, handle_cabin_input}
use pirate_servers.Client.User.{attempt, handle_user_input}
use pirate_servers.Client.Commands.{any_below, bare_join_faults, text_outcome}
use pirate_servers.Client.Console.{last_text_is_lost}

abbrev ann : Client
ann = new_client "ann" "pw" "tcp://localhost:5555"

abbrev always : ℕ → Bool
always i = true

abbrev never : ℕ → Bool
never i = false

abbrev third_time : ℕ → Bool
third_time i = nat_eq i 2

bare_join_faults_example :
    (handle_user_input always ("CLIENT" ∷ "COMMAND" ∷ "/join" ∷ []) ann ≡ err bad_substr)
    ↔ ◌≡◌ {A = String} "/join" "/join"
bare_join_faults_example = bare_join_faults always ann "/join" refl

last_text_is_lost_example :
    handle_cabin_input ("CABIN" ∷ "TEXT" ∷ "bob" ∷ "one" ∷ "two" ∷ "three" ∷ []) ann
    ≡ ok (
      ann,
      printed "bob: one\n" ∷ printed "> bob: one\n" ∷ printed "> bob: two\n" ∷ printed "> " ∷ [],
    )
unfolding print_more
last_text_is_lost_example = last_text_is_lost ann "bob" "one" ("two" ∷ []) "three" (omega arith)

text_outcome_example :
    handle_user_input third_time ("CLIENT" ∷ "TEXT" ∷ "hi" ∷ []) ann
    ≡ ok (ann, sent ("CREW" ∷ "TEXT" ∷ "hi" ∷ []) ∷ [])
unfolding any_below
text_outcome_example = text_outcome third_time ann "hi"

-- And where no send succeeds.
gives_up :
    handle_user_input never ("CLIENT" ∷ "TEXT" ∷ "hi" ∷ []) ann
    ≡ ok (record ann { alive = false }, [])
unfolding handle_user_input attempt
gives_up = refl
