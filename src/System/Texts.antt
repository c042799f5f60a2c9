-- ===== src/System/Texts.antt =====
-- The texts in messages of a client (src/client/Client.cpp), on their way from its user to the ship deck.
use mathlib.Core.List.{append_assoc}
use pirate_servers.Base.{
  String, ◌≡◌, refl, sym, ap, ◌∙◌, ◌==◌, ◌&&◌, if◌then◌else◌, Bool-cases, inl, inr, List, [], ◌∷◌,
  ◌++◌,
}
use pirate_servers.Wire.{Message}

-- The text of a message that `who` begins.
abbrev pub texts_in : String → Message → List String
texts_in who (sender ∷ kind ∷ text ∷ rest) =
    if (sender == who) && (kind == "TEXT") then text ∷ [] else []
texts_in who _ = []

-- What of the messages comes from an identity, without its frame.
abbrev pub behind : String → List Message → List Message
behind id [] = []
behind id ([] ∷ messages) = behind id messages
behind id ((sender ∷ m) ∷ messages) =
    let rest = behind id messages in if sender == id then m ∷ rest else rest

-- The texts of messages that `who` begins.
abbrev pub texts_of : String → List Message → List String
texts_of who [] = []
texts_of who (m ∷ messages) = texts_in who m ++ texts_of who messages

pub behind-append :
    (id : String) (first more : List Message)
    → behind id (first ++ more) ≡ behind id first ++ behind id more
behind-append id [] more = refl
behind-append id ([] ∷ first) more = behind-append id first more
behind-append id ((sender ∷ m) ∷ first) more = elim (Bool-cases (sender == id)) [
  | inl mine ↦ rw mine (ap (◌∷◌ m) (behind-append id first more))
  | inr other ↦ rw other (behind-append id first more)
]

pub texts_of-append :
    (who : String) (first more : List Message)
    → texts_of who (first ++ more) ≡ texts_of who first ++ texts_of who more
texts_of-append who [] more = refl
texts_of-append who (m ∷ first) more =
    ap (λ (l : List String). texts_in who m ++ l) (texts_of-append who first more)
    ∙ sym (append_assoc (texts_in who m) (texts_of who first) (texts_of who more))
