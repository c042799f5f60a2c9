-- ===== src/Wire/Spans.antt =====
-- The spans that the handlers of src/client/Client.cpp and src/server/*.cpp take of their input.
use pirate_servers.Base.{
  ℕ, zero, suc, ◌+◌, ◌-◌, ◌≤◌, ◌<◌, ◌≡◌, refl, ap, List, [], ◌∷◌, ◌++◌, arith, length, drop, take,
}
use pirate_servers.Base.Outcome.{ok}
use pirate_servers.Base.Word.{u64_mod, sub64}
use pirate_servers.Wire.{Message, subspan}

module _ {ℓ} {A : Type ℓ} where
  take_all : (n : ℕ) (xs : List A) → length xs ≤ n → take n xs ≡ xs
  take_all zero [] h = refl
  take_all zero (x ∷ xs) h = absurd (omega arith)
  take_all (suc n) [] h = refl
  take_all (suc n) (x ∷ xs) h = ap (◌∷◌ x) (take_all n xs (omega arith))

  pub take-append : (xs ys : List A) → take (length xs) (xs ++ ys) ≡ xs
  take-append [] ys = refl
  take-append (x ∷ xs) ys = ap (◌∷◌ x) (take-append xs ys)

  length-drop : (n : ℕ) (xs : List A) → length (drop n xs) ≡ length xs - n
  length-drop zero xs = omega arith
  length-drop (suc n) [] = omega arith
  length-drop (suc n) (x ∷ xs) = omega (arith, length-drop n xs)

  pub length-append : (xs ys : List A) → length (xs ++ ys) ≡ length xs + length ys
  length-append [] ys = omega arith
  length-append (x ∷ xs) ys = omega (arith, length-append xs ys)

-- `input.subspan(k, input.size() - k)` is what stands behind the first k frames.
pub subspan_rest :
    (input : Message) (k : ℕ)
    → k ≤ length input
    → length input < u64_mod
    → subspan input k (sub64 (length input) k) ≡ ok (drop k input)
unfolding subspan
subspan_rest input k h fits =
    ground (arith, take_all (sub64 (length input) k) (drop k input), length-drop k input)

-- `input.subspan(k, input.size() - k - 1)` leaves out the last frame too.
pub subspan_init :
    (input : Message) (k : ℕ)
    → suc k ≤ length input
    → length input < u64_mod
    → subspan input k (sub64 (length input) (suc k))
      ≡ ok (take (length input - suc k) (drop k input))
unfolding subspan
subspan_init input k h fits =
    let e : sub64 (length input) (suc k) ≡ length input - suc k = omega arith in rw e (ground arith)
