-- ===== src/Base/Text.antt =====
-- The members of `std::string` that the program uses, over a text whose characters are its bytes.
use Prim.Native.Char.{code}
use Prim.Native.String.{[], ◌∷◌, ◌++◌}
use text.Mathlib.TextLemmas.{nil-append, cons-append}
use pirate_servers.Base.{
  ℕ, zero, suc, String, ◌≡◌, Bool, true, false, ◌&&◌, nat_eq, ltb, if◌then◌else◌,
}
use pirate_servers.Base.Outcome.{Outcome, ok, err, bad_substr}

-- `s.length()`.
unfoldable pub size : String → ℕ
size [] = 0
size (c ∷ s) = suc (size s)

-- `s.starts_with(p)`, with the prefix first.
unfoldable pub has_prefix : String → String → Bool
has_prefix [] s = true
has_prefix (c ∷ p) [] = false
has_prefix (c ∷ p) (d ∷ s) = nat_eq (code c) (code d) && has_prefix p s

unfoldable pub skip : ℕ → String → String
skip zero s = s
skip (suc n) [] = []
skip (suc n) (c ∷ s) = skip n s

unfoldable pub keep : ℕ → String → String
keep zero s = []
keep (suc n) [] = []
keep (suc n) (c ∷ s) = c ∷ keep n s

-- `s.substr(pos, count)` and `s.substr(pos)`, which throw where `pos` is behind the end.
unfoldable pub substr : String → ℕ → ℕ → Outcome String
unfolding size skip keep
substr s pos count = if ltb (size s) pos then err bad_substr else ok (keep count (skip pos s))

unfoldable pub substr_from : String → ℕ → Outcome String
unfolding size skip
substr_from s pos = if ltb (size s) pos then err bad_substr else ok (skip pos s)

-- What stands behind a first part of a text is found by its length.
pub skip-append : (p s : String) → skip (size p) (p ++ s) ≡ s
unfolding size skip
skip-append [] s = nil-append s
skip-append (c ∷ p) s = rw cons-append (skip-append p s)
