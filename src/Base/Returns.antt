-- ===== src/Base/Returns.antt =====
-- What code that may fault gives when it returns a pair: a state and what is sent. One rule for each
-- way to build such code.
use mathlib.Core.Path.{◌≡◌, refl, ap, subst}
use mathlib.Core.Bool.{Bool, true, false}
use pirate_servers.Base.{if◌then◌else◌}
use pirate_servers.Base.Outcome.{Outcome, ok, err, ◌>>=◌}

pub record Gives {ℓ κ μ} {A : Type κ} {B : Type μ} (Q : A → B → Type ℓ) (r : Outcome (A × B))
    : Type (ℓ ⊔ κ ⊔ μ) where
  pub at : (d : A) (sent : B) → r ≡ ok (d, sent) → Q d sent

module _ {ℓ κ μ} {A : Type κ} {B : Type μ} where
  -- The pair that a result holds.
  abbrev result_or : A × B → Outcome (A × B) → A × B
  result_or given (ok result) = result
  result_or given (err e) = given

  module _ {Q : A → B → Type ℓ} where
    pub Gives-ok : (result : A × B) → Q result.0 result.1 → Gives Q (ok result)
    Gives-ok result h = record {
      at = λ d sent e. subst (λ (x : A × B). Q x.0 x.1) (ap (result_or result) e) h;
    }

    -- Later steps run after the one before them returned, and may use what it returned.
    pub Gives-bind {ν} :
        {C : Type ν} (first : Outcome C) (next : C → Outcome (A × B))
        → ((c : C) → first ≡ ok c → Gives Q (next c))
        → Gives Q (first >>= next)
    Gives-bind (ok c) next later = later c refl
    Gives-bind (err fault) next later = record { at = λ d sent returns. cc }

    pub Gives-if :
        (test : Bool) (taken skipped : Outcome (A × B))
        → (test ≡ true → Gives Q taken)
        → (test ≡ false → Gives Q skipped)
        → Gives Q (if test then taken else skipped)
    Gives-if false taken skipped on_yes on_no = on_no refl
    Gives-if true taken skipped on_yes on_no = on_yes refl

pub ruleset gives_rules = (Gives-bind, Gives-if, Gives-ok)
