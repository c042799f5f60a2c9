-- ===== src/Base/Integer.antt =====
-- `int` and `std::stoi`, as server_main.cpp reads its ports.
use Prim.Native.Char.{code}
use Prim.Native.String.{[], ◌∷◌}
use pirate_servers.Base.{
  ℕ, zero, suc, ◌+◌, ◌-◌, ◌*◌, ◌^◌, String, Bool, Option, none, some, leb, ltb, nat_eq, ◌&&◌, ◌||◌,
  if◌then◌else◌,
}

pub data ℤ : Type 0 where
  pos : ℕ → ℤ
  negsuc : ℕ → ℤ

abbrev pub negate : ℕ → ℤ
negate zero = pos 0
negate (suc n) = negsuc n

abbrev is_space : ℕ → Bool
is_space c = nat_eq c 32 || (leb 9 c && leb c 13)

abbrev is_digit : ℕ → Bool
is_digit c = leb 48 c && leb c 57

unfoldable pub skip_spaces : String → String
skip_spaces [] = []
skip_spaces (c ∷ s) = if is_space (code c) then skip_spaces s else c ∷ s

-- The digits in front, behind a number that was read already.
unfoldable pub read_digits : ℕ → String → ℕ
read_digits n [] = n
read_digits n (c ∷ s) = if is_digit (code c) then read_digits (n * 10 + (code c - 48)) s else n

unfoldable pub read_number : String → Option ℕ
unfolding read_digits
read_number [] = none
read_number (c ∷ s) = if is_digit (code c) then some (read_digits 0 (c ∷ s)) else none

-- An `int` has 32 bits.
abbrev in_range : ℕ → (ℕ → ℤ) → Option ℕ → Option ℤ
in_range bound make none = none
in_range bound make (some n) = if ltb n bound then some (make n) else none

unfoldable pub read_signed : String → Option ℤ
unfolding read_number
read_signed [] = none
read_signed (c ∷ s) =
    if nat_eq (code c) 45
    then in_range (2 ^ 31 + 1) negate (read_number s)
    else if nat_eq (code c) 43
    then in_range (2 ^ 31) pos (read_number s)
    else in_range (2 ^ 31) pos (read_number (c ∷ s))

-- `none` is an exception: no number in front, or one that is out of range.
unfoldable pub stoi : String → Option ℤ
unfolding skip_spaces read_signed
stoi s = read_signed (skip_spaces s)
