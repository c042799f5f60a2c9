-- ===== src/Deck/Keeps.antt =====
-- What a handler of the ship deck keeps of the deck when it returns.
use pirate_servers.Base.{refl, List, ◌++◌}
use pirate_servers.Base.Outcome.{Outcome, ok, err, ◌>>=◌}
use pirate_servers.Base.Returns.{gives_rules}
use pirate_servers.Deck.{Deck, Sent}
pub use pirate_servers.Base.Returns.{Gives, Gives-ok, Gives-bind, Gives-if}

abbrev pub Keeps {ℓ} : (Deck → Type ℓ) → Outcome (Deck × List Sent) → Type ℓ
Keeps P r = Gives (λ d (sent : List Sent). P d) r

-- What was sent before does not change the deck.
pub Keeps-after {ℓ} :
    {P : Deck → Type ℓ} (m : Outcome (Deck × List Sent)) (out : List Sent)
    → Keeps P m
    → Keeps P (m >>= λ x. ok (x.0, out ++ x.1))
Keeps-after (ok result) out k = Gives-ok (result.0, out ++ result.1) (k.at result.0 result.1 refl)
Keeps-after (err e) out k = record { at = λ d sent eq. cc }

pub ruleset keeps_rules = (gives_rules)
