-- ===== src/Client/Console.antt =====
-- What the client of src/client/Client.cpp shows of the messages of a cabin.
use pirate_servers.Base.{
  ℕ, suc, ◌+◌, ◌-◌, ◌<◌, String, ◌≡◌, ◌≢◌, ap, ◌∙◌, [], ◌∷◌, ◌++◌, arith, length, take, ◌==◌,
  eq_of_ne, if◌then◌else◌,
}
use pirate_servers.Base.Outcome.{ok}
use pirate_servers.Base.Word.{u64_mod}
use pirate_servers.Wire.{Message}
use pirate_servers.Wire.Spans.{subspan_init, take-append, length-append}
use pirate_servers.Client.{Client, printed}
use pirate_servers.Client.Ship.{line, print_more, handle_cabin_input}

middle_texts :
    (first : String) (more : Message) (last : String)
    → take (suc (suc (suc (suc (length (more ++ last ∷ []))))) - 4) (first ∷ (more ++ last ∷ []))
      ≡ first ∷ more
middle_texts first more last =
    let n : suc (suc (suc (suc (length (more ++ last ∷ []))))) - 4 ≡ suc (length more) =
      omega (arith, length-append more (last ∷ [])) in
    ap (λ (k : ℕ). take k (first ∷ (more ++ last ∷ []))) n ∙ take-append (first ∷ more) (last ∷ [])

module _ (c : Client) where
  -- A cabin's message with one text that is not empty is shown as one line and a prompt.
  pub shows_text :
      (sender text : String)
      → text ≢ ""
      → handle_cabin_input ("CABIN" ∷ "TEXT" ∷ sender ∷ text ∷ []) c
        ≡ ok (c, printed (line sender text) ∷ printed "> " ∷ [])
  unfolding handle_cabin_input
  shows_text sender text h = rw (
    subspan_init ("CABIN" ∷ "TEXT" ∷ sender ∷ text ∷ []) 3 (omega arith) (omega arith),
    eq_of_ne text "" h,
  )

  -- Of a message with several texts the first is shown, then every one but the last, the first
  -- among them again, each with a prompt mark; the last is never shown.
  pub last_text_is_lost :
      (sender first : String) (more : Message) (last : String)
      → length more + 5 < u64_mod
      → handle_cabin_input ("CABIN" ∷ "TEXT" ∷ sender ∷ first ∷ (more ++ last ∷ [])) c
        ≡ ok (
          c,
          (if first == "" then [] else printed (line sender first) ∷ [])
              ++ (print_more sender (first ∷ more) ++ (printed "> " ∷ [])),
        )
  unfolding handle_cabin_input
  last_text_is_lost sender first more last fits =
      let input = "CABIN" ∷ "TEXT" ∷ sender ∷ first ∷ (more ++ last ∷ []) in
      let size : length input ≡ 5 + length more = omega (arith, length-append more (last ∷ [])) in
      rw (subspan_init input 3 (omega arith) (omega arith), middle_texts first more last)
