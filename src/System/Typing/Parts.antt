-- ===== src/System/Typing/Parts.antt =====
-- How the texts of lines, messages and effects (src/client/Client.cpp) are put together.
use mathlib.Core.List.{append-nil, append_assoc}
use pirate_servers.Base.{
  String, ◌≡◌, refl, sym, ap, ◌∙◌, true, ◌||◌, ◌==◌, if◌then◌else◌, List, [], ◌∷◌, ◌++◌, arith,
  Bool-cases, inl, inr,
}
use pirate_servers.Base.Text.{has_prefix}
use pirate_servers.Wire.{Message}
use pirate_servers.Client.{Effect, sent, printed}
use pirate_servers.Client.Tasks.{input_message}
use pirate_servers.Client.Threads.{after_line}
use pirate_servers.Client.Threads.Order.{unsent}
use pirate_servers.System.Answers.{from_server}
use pirate_servers.System.Texts.{texts_in, texts_of}
use pirate_servers.System.Typing.{sent_texts, typed_texts, none_in}

pub sent_texts-append :
    (first more : List Effect) → sent_texts (first ++ more) ≡ sent_texts first ++ sent_texts more
sent_texts-append [] more = refl
sent_texts-append (printed s ∷ first) more = sent_texts-append first more
sent_texts-append (sent m ∷ first) more =
    ap (λ (l : List String). texts_in "CREW" m ++ l) (sent_texts-append first more)
    ∙ sym (append_assoc (texts_in "CREW" m) (sent_texts first) (sent_texts more))

abbrev pub line_texts : String → List String
line_texts input_str = if (input_str == "") || has_prefix "/" input_str then [] else input_str ∷ []

pub typed_texts-snoc :
    (typed : List String) (input_str : String)
    → typed_texts (typed ++ input_str ∷ []) ≡ typed_texts typed ++ line_texts input_str
typed_texts-snoc [] input_str = append-nil _
typed_texts-snoc (first ∷ typed) input_str =
    ap (λ (l : List String). line_texts first ++ l) (typed_texts-snoc typed input_str)
    ∙ sym (append_assoc (line_texts first) (typed_texts typed) _)

pub unsent_texts :
    (input_str : String)
    → texts_of "CLIENT" (unsent (after_line (input_message input_str))) ≡ line_texts input_str
unfolding input_message
unsent_texts input_str = elim (Bool-cases (input_str == "")) [
  | inl empty ↦ rw empty refl
  | inr line ↦ elim (Bool-cases (has_prefix "/" input_str)) [
    | inl command ↦ rw (line, command) refl
    | inr text ↦ rw (line, text) refl
  ]
]

pub append-eq-nil : (first more : List String) → first ++ more ≡ [] → (first ≡ []) × (more ≡ [])
append-eq-nil [] more e = (refl, e)
append-eq-nil (text ∷ first) more e = cc

pub from_server-texts : (m : Message) → from_server m ≡ true → texts_in "CLIENT" m ≡ []
from_server-texts [] h = refl
from_server-texts (sender ∷ frames) h = none_in "CLIENT" sender frames (ground arith)

pub line_behind :
    (first second third line : List String)
    → (first ++ (second ++ (third ++ []))) ++ line ≡ first ++ (second ++ (third ++ line))
line_behind first second third line = simp (append_assoc, append-nil)
