-- ===== src/Base/Prefix.antt =====
-- What the test for a prefix tells of a text.
use Prim.Native.Char.{Char, code}
use Prim.Native.String.{[], ◌∷◌}
use text.Mathlib.TextEquality.{Char-path}
use pirate_servers.Base.{ℕ, zero, suc, ◌≤◌, String, ◌≡◌, refl, ap, ap₂, true, arith, nat_eq}
use pirate_servers.Base.Text.{size, has_prefix, keep}

same_char : (c d : Char) → nat_eq (code c) (code d) ≡ true → d ≡ c
same_char c d h = Char-path d c (ground arith)

-- The first characters of the text are the prefix.
pub keep-has_prefix : (p s : String) → has_prefix p s ≡ true → keep (size p) s ≡ p
unfolding keep has_prefix size
keep-has_prefix [] s h = refl
keep-has_prefix (c ∷ p) [] h = cc
keep-has_prefix (c ∷ p) (d ∷ s) h =
    ap₂ ◌∷◌ (same_char c d (ground arith)) (keep-has_prefix p s (ground arith))

pub size-le_of_has_prefix : (p s : String) → has_prefix p s ≡ true → size p ≤ size s
unfolding has_prefix size
size-le_of_has_prefix [] s h = omega arith
size-le_of_has_prefix (c ∷ p) [] h = cc
size-le_of_has_prefix (c ∷ p) (d ∷ s) h = ground (arith, size-le_of_has_prefix p s)

-- A text that is no longer than its prefix is the prefix.
pub keep_whole : (n : ℕ) (s : String) → size s ≤ n → keep n s ≡ s
unfolding keep size
keep_whole zero [] h = refl
keep_whole zero (c ∷ s) h = absurd (omega arith)
keep_whole (suc n) [] h = refl
keep_whole (suc n) (c ∷ s) h = ap (◌∷◌ c) (keep_whole n s (omega arith))
