-- ===== src/Base/Interleaving.antt =====
-- Two lists merged, each in its own order: what threads beside each other do.
use mathlib.Core.List.{List, [], ◌∷◌, ◌++◌}

-- `zs` is made of `xs` and `ys`, each in its own order.
pub data Interleaving {ℓ} {A : Type ℓ} : List A → List A → List A → Type ℓ where
  none_left : Interleaving [] [] []
  from_first :
      {x : A} {xs ys zs : List A} → Interleaving xs ys zs → Interleaving (x ∷ xs) ys (x ∷ zs)
  from_second :
      {y : A} {xs ys zs : List A} → Interleaving xs ys zs → Interleaving xs (y ∷ ys) (y ∷ zs)

module _ {ℓ} {A : Type ℓ} where
  pub snoc_first :
      (x : A) {xs ys zs : List A}
      → Interleaving xs ys zs
      → Interleaving (xs ++ x ∷ []) ys (zs ++ x ∷ [])
  snoc_first x none_left = from_first none_left
  snoc_first x (from_first i) = from_first (snoc_first x i)
  snoc_first x (from_second i) = from_second (snoc_first x i)

  pub snoc_second :
      (y : A) {xs ys zs : List A}
      → Interleaving xs ys zs
      → Interleaving xs (ys ++ y ∷ []) (zs ++ y ∷ [])
  snoc_second y none_left = from_second none_left
  snoc_second y (from_first i) = from_first (snoc_second y i)
  snoc_second y (from_second i) = from_second (snoc_second y i)

  all_first : (xs : List A) → Interleaving xs [] xs
  all_first [] = none_left
  all_first (x ∷ xs) = from_first (all_first xs)

  all_second : (ys : List A) → Interleaving [] ys ys
  all_second [] = none_left
  all_second (y ∷ ys) = from_second (all_second ys)

  pub append_first :
      (more : List A) {xs ys zs : List A}
      → Interleaving xs ys zs
      → Interleaving (xs ++ more) ys (zs ++ more)
  append_first more none_left = all_first more
  append_first more (from_first i) = from_first (append_first more i)
  append_first more (from_second i) = from_second (append_first more i)

  pub append_second :
      (more : List A) {xs ys zs : List A}
      → Interleaving xs ys zs
      → Interleaving xs (ys ++ more) (zs ++ more)
  append_second more none_left = all_second more
  append_second more (from_first i) = from_first (append_second more i)
  append_second more (from_second i) = from_second (append_second more i)
