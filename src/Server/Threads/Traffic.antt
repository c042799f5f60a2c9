-- ===== src/Server/Threads/Traffic.antt =====
-- What goes through the server (src/server/Server.cpp), by where it comes from and where it goes.
use mathlib.Core.List.{append-nil, append_assoc}
use pirate_servers.Base.{
  ◌≡◌, refl, sym, ap, ◌∙◌, Bool, true, Option, none, some, List, [], ◌∷◌, ◌++◌,
}
use pirate_servers.Wire.{Message}
use pirate_servers.Server.{Passed, to_shipdeck, to_clients, Round}

-- What of the messages that are passed on goes to the deck, and what to the crew.
unfoldable pub to_deck : List Passed → List Message
to_deck [] = []
to_deck (to_shipdeck m ∷ passed) = m ∷ to_deck passed
to_deck (to_clients m ∷ passed) = to_deck passed

unfoldable pub to_crew : List Passed → List Message
to_crew [] = []
to_crew (to_shipdeck m ∷ passed) = to_crew passed
to_crew (to_clients m ∷ passed) = m ∷ to_crew passed

-- The messages that the crew's listener took in.
unfoldable pub from_crew : List (Bool × Option Message) → List Message
from_crew [] = []
from_crew ((alive, none) ∷ rs) = from_crew rs
from_crew ((alive, some m) ∷ rs) = m ∷ from_crew rs

-- The messages of the ship deck that the ship listener took in.
abbrev pub taken : Option Message → List Message
taken none = []
taken (some m) = m ∷ []

unfoldable pub from_deck : List Round → List Message
from_deck [] = []
from_deck (r ∷ rs) = taken r.shipdeck ++ from_deck rs

pub to_deck-append :
    (first later : List Passed) → to_deck (first ++ later) ≡ to_deck first ++ to_deck later
unfolding to_deck
to_deck-append [] later = refl
to_deck-append (to_shipdeck m ∷ first) later = ap (◌∷◌ m) (to_deck-append first later)
to_deck-append (to_clients m ∷ first) later = to_deck-append first later

pub to_crew-append :
    (first later : List Passed) → to_crew (first ++ later) ≡ to_crew first ++ to_crew later
unfolding to_crew
to_crew-append [] later = refl
to_crew-append (to_shipdeck m ∷ first) later = to_crew-append first later
to_crew-append (to_clients m ∷ first) later = ap (◌∷◌ m) (to_crew-append first later)

pub from_crew-snoc :
    (rs : List (Bool × Option Message)) (ready : Option Message)
    → from_crew (rs ++ (true, ready) ∷ []) ≡ from_crew rs ++ taken ready
unfolding from_crew
from_crew-snoc [] none = refl
from_crew-snoc [] (some m) = refl
from_crew-snoc ((alive, none) ∷ rs) ready = from_crew-snoc rs ready
from_crew-snoc ((alive, some m) ∷ rs) ready = ap (◌∷◌ m) (from_crew-snoc rs ready)

pub from_deck-snoc :
    (rs : List Round) (r : Round) → from_deck (rs ++ r ∷ []) ≡ from_deck rs ++ taken r.shipdeck
unfolding from_deck
from_deck-snoc [] r = append-nil (taken r.shipdeck)
from_deck-snoc (q ∷ rs) r =
    ap (◌++◌ (taken q.shipdeck)) (from_deck-snoc rs r)
    ∙ sym (append_assoc (taken q.shipdeck) (from_deck rs) (taken r.shipdeck))
