-- ===== src/Client/Quiet.antt =====
-- The handlers of src/client/Client.cpp for messages of the ship and of cabins send nothing.
use pirate_servers.Base.{
  subst, false≢true, if◌then◌else◌, String, ◌≡◌, refl, Bool, true, false, List, [], ◌∷◌, ◌++◌,
  arith, ◌==◌,
}
use pirate_servers.Base.Outcome.{ok_injective, bind-eq-ok, ok}
use pirate_servers.Base.Returns.{Gives, gives_rules}
use pirate_servers.Wire.{Message, frame}
use pirate_servers.Client.{Client, Effect, printed, sent}
use pirate_servers.Client.Ship.{
  line, print_texts, handle_ship_input_text, handle_ship_input_command, labelled,
  handle_ship_input_alert, handle_ship_input_info, handle_ship_input, print_more,
  handle_cabin_input,
}

abbrev pub is_quiet : List Effect → Bool
is_quiet [] = true
is_quiet (printed s ∷ effects) = is_quiet effects
is_quiet (sent m ∷ effects) = false

is_quiet-append :
    (first rest : List Effect)
    → is_quiet first ≡ true
    → is_quiet rest ≡ true
    → is_quiet (first ++ rest) ≡ true
is_quiet-append [] rest h k = k
is_quiet-append (printed s ∷ first) rest h k = is_quiet-append first rest h k
is_quiet-append (sent m ∷ first) rest h k = absurd (false≢true h)

labelled_quiet : (label : String) (texts : Message) → is_quiet (labelled label texts) ≡ true
labelled_quiet label [] = refl
labelled_quiet label (text ∷ texts) = labelled_quiet label texts

print_more_quiet :
    (username : String) (texts : Message) → is_quiet (print_more username texts) ≡ true
unfolding print_more
print_more_quiet username [] = refl
print_more_quiet username (text ∷ texts) = ground (arith, print_more_quiet username texts)

abbrev pub IsQuiet : Client → List Effect → Type 0
IsQuiet c effects = is_quiet effects ≡ true

print_texts_quiet :
    (input texts : Message) (lines : List Effect)
    → print_texts input texts ≡ ok lines
    → is_quiet lines ≡ true
unfolding print_texts
print_texts_quiet input [] lines e = subst (λ l. is_quiet l ≡ true) (ok_injective e) refl
print_texts_quiet input (text ∷ texts) lines e =
    let (sender, _, printing) = bind-eq-ok (frame input 2) _ e in
    let (more, printed_more, last) = bind-eq-ok (print_texts input texts) _ printing in
    subst (λ l. is_quiet l ≡ true) (ok_injective last)
      (print_texts_quiet input texts more printed_more)

module _ (input : Message) (c : Client) where
  labelled-IsQuiet : (label : String) (texts : Message) → IsQuiet c (labelled label texts)
  labelled-IsQuiet label texts = labelled_quiet label texts

  texts-IsQuiet :
      (texts : Message) (lines : List Effect)
      → print_texts input texts ≡ ok lines
      → IsQuiet c (lines ++ (printed "< " ∷ []))
  texts-IsQuiet texts lines e =
      is_quiet-append lines (printed "< " ∷ []) (print_texts_quiet input texts lines e) refl

  text-IsQuiet :
      (username text : String) (more : Message)
      → IsQuiet c (
          (if text == "" then [] else printed (line username text) ∷ [])
          ++ (print_more username more ++ (printed "> " ∷ [])))
  text-IsQuiet username text more = ground (
    arith,
    is_quiet-append (print_more username more) (printed "> " ∷ []) (print_more_quiet username more)
        refl,
  )

  pub ship-Gives : Gives IsQuiet (handle_ship_input input c)
  unfolding handle_ship_input handle_ship_input_text handle_ship_input_command
      handle_ship_input_alert handle_ship_input_info
  ship-Gives = search (gives_rules, labelled-IsQuiet, texts-IsQuiet) depth 30

  pub cabin-Gives : Gives IsQuiet (handle_cabin_input input c)
  unfolding handle_cabin_input
  cabin-Gives = search (gives_rules, text-IsQuiet) depth 30
