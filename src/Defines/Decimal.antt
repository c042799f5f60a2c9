-- ===== src/Defines/Decimal.antt =====
-- `std::to_string` of an unsigned number, which src/server/defines.cpp and src/server/Cabin.cpp
-- print counts with, and the number that such a text stands for.
use Prim.Native.Char.{code}
use Prim.Native.String.{[], ◌∷◌, ◌++◌}
use text.Mathlib.TextLemmas.{cons-append, nil-append}
use native.Mathlib.Nat.{pow-suc}
use pirate_servers.Base.{
  ℕ, zero, suc, ◌+◌, ◌-◌, ◌*◌, ◌/◌, ◌%◌, ◌^◌, ◌<◌, String, ◌≡◌, refl, inl, inr, Bool-cases, arith,
  ltb, if◌then◌else◌,
}
use pirate_servers.Base.Word.{u64_mod}

digit : ℕ → String
digit zero = "0"
digit (suc zero) = "1"
digit (suc (suc zero)) = "2"
digit (suc (suc (suc zero))) = "3"
digit (suc (suc (suc (suc zero)))) = "4"
digit (suc (suc (suc (suc (suc zero))))) = "5"
digit (suc (suc (suc (suc (suc (suc zero)))))) = "6"
digit (suc (suc (suc (suc (suc (suc (suc zero))))))) = "7"
digit (suc (suc (suc (suc (suc (suc (suc (suc zero)))))))) = "8"
digit (suc (suc (suc (suc (suc (suc (suc (suc (suc n))))))))) = "9"

-- One digit for each unit of fuel at most.
decimal : ℕ → ℕ → String
unfolding digit
decimal zero n = ""
decimal (suc fuel) n =
    let rest = decimal fuel (n / 10) ++ digit (n % 10) in if ltb n 10 then digit n else rest

-- Twenty digits are enough for every number of 64 bits.
unfoldable pub to_string : ℕ → String
unfolding decimal
to_string n = decimal 20 n

-- The number that a row of digits stands for, behind those already read.
value_from : ℕ → String → ℕ
value_from acc [] = acc
value_from acc (c ∷ s) = value_from (acc * 10 + (code c - 48)) s

unfoldable pub value : String → ℕ
unfolding value_from
value s = value_from 0 s

value_from-append :
    (acc : ℕ) (s t : String) → value_from acc (s ++ t) ≡ value_from (value_from acc s) t
unfolding value_from
value_from-append acc [] t = rw nil-append
value_from-append acc (c ∷ s) t = rw cons-append (value_from-append (acc * 10 + (code c - 48)) s t)

value_from-digit : (acc d : ℕ) → d < 10 → value_from acc (digit d) ≡ acc * 10 + d
unfolding value_from digit
value_from-digit acc zero h = omega arith
value_from-digit acc (suc zero) h = omega arith
value_from-digit acc (suc (suc zero)) h = omega arith
value_from-digit acc (suc (suc (suc zero))) h = omega arith
value_from-digit acc (suc (suc (suc (suc zero)))) h = omega arith
value_from-digit acc (suc (suc (suc (suc (suc zero))))) h = omega arith
value_from-digit acc (suc (suc (suc (suc (suc (suc zero)))))) h = omega arith
value_from-digit acc (suc (suc (suc (suc (suc (suc (suc zero))))))) h = omega arith
value_from-digit acc (suc (suc (suc (suc (suc (suc (suc (suc zero)))))))) h = omega arith
value_from-digit acc (suc (suc (suc (suc (suc (suc (suc (suc (suc n))))))))) h = omega arith

value-decimal : (fuel n : ℕ) → n < 10 ^ fuel → value_from 0 (decimal fuel n) ≡ n
unfolding decimal
value-decimal zero n h = unfold value_from in omega arith
value-decimal (suc fuel) n h = elim (Bool-cases (ltb n 10)) [
  | inl small ↦ rw small (ground (arith, value_from-digit 0 n))
  | inr large ↦
      rw
        (
          large,
          value_from-append 0 (decimal fuel (n / 10)) (digit (n % 10)),
          value-decimal fuel (n / 10) (omega (arith, pow-suc 10 fuel)),
        )
        (omega (arith, value_from-digit (n / 10) (n % 10)))
]

-- A 64-bit number is read back from its text.
pub value-to_string : (n : ℕ) → n < u64_mod → value (to_string n) ≡ n
unfolding value to_string
value-to_string n h = value-decimal 20 n (omega arith)

to_string_sample : to_string 4294967295 ≡ "4294967295"
unfolding to_string
to_string_sample = refl
