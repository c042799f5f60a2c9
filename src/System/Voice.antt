-- ===== src/System/Voice.antt =====
-- What the ship deck (src/server/Shipdeck.cpp) tells the cabins in the name of a user.
pub mod Handlers
pub mod Services
pub mod Theirs
pub mod Settled
pub mod Exact
pub mod Settles
pub mod Run
use pirate_servers.Base.{
  String, ◌≡◌, refl, sym, ap, ◌∙◌, ◌&&◌, ◌==◌, if◌then◌else◌, List, [], ◌∷◌, ◌++◌,
}
use mathlib.Core.List.{append_assoc}
use pirate_servers.Wire.{Message}
use pirate_servers.Defines.{ClientId}
use pirate_servers.Deck.{Deck, Sent, to_cabins}
use pirate_servers.System.Follow.{name_of}

-- The texts that the cabins are sent in the name of a user.
abbrev pub text_as : String → Sent → List String
text_as u (to_cabins (cab_id ∷ kind ∷ username ∷ text ∷ rest)) =
    if (kind == "TEXT") && (username == u) then text ∷ [] else []
text_as u _ = []

abbrev pub spoken : String → List Sent → List String
spoken u [] = []
spoken u (s ∷ sent) = text_as u s ++ spoken u sent

pub spoken-append :
    (u : String) (first more : List Sent)
    → spoken u (first ++ more) ≡ spoken u first ++ spoken u more
spoken-append u [] more = refl
spoken-append u (s ∷ first) more =
    ap (λ (l : List String). text_as u s ++ l) (spoken-append u first more)
    ∙ sym (append_assoc (text_as u s) (spoken u first) (spoken u more))

-- No client's name changes, and no text is sent.
pub record IsMute (d d' : Deck) (out : List Sent) : Type 0 where
  pub names : (k : ClientId) → name_of k d' ≡ name_of k d
  pub mute : (u : String) → spoken u out ≡ []
