-- ===== src/Base/Map.antt =====
-- `std::unordered_map` with string keys, as a list of entries. `operator[]` inserts a default value
-- for a key that is missing: `touch` is that insertion, and `index` the value.
use pirate_servers.Base.{
  ℕ, ◌+◌, String, ◌≡◌, refl, Bool, true, false, Option, none, some, List, [], ◌∷◌, arith, ◌==◌,
  eq_iff, eq_refl, if◌then◌else◌, bit, length,
}

abbrev pub Map {ℓ} : Type ℓ → Type ℓ
Map V = List (String × V)

module _ {ℓ} {V : Type ℓ} where
  unfoldable pub lookup : String → Map V → Option V
  lookup key [] = none
  lookup key (entry ∷ rest) = if entry.0 == key then some entry.1 else lookup key rest

  abbrev pub is_some : Option V → Bool
  is_some none = false
  is_some (some v) = true

  abbrev pub or_default : V → Option V → V
  or_default d none = d
  or_default d (some v) = v

  abbrev pub contains : String → Map V → Bool
  contains k m = is_some (lookup k m)

  abbrev pub index : String → V → Map V → V
  index k d m = or_default d (lookup k m)

  unfoldable pub insert : String → V → Map V → Map V
  insert key value [] = (key, value) ∷ []
  insert key value (entry ∷ rest) =
      if entry.0 == key then (key, value) ∷ rest else entry ∷ insert key value rest

  abbrev pub touch : String → V → Map V → Map V
  touch k d m = if contains k m then m else insert k d m

  -- A key reads what was last written at it.
  pub lookup-insert :
      (key other : String) (value : V) (entries : Map V)
      → lookup other (insert key value entries)
        ≡ (if key == other then some value else lookup other entries)
  unfolding lookup insert
  lookup-insert key other value [] = refl
  lookup-insert key other value (entry ∷ rest) = ground (
    arith,
    lookup-insert key other value rest,
    eq_iff entry.0 key,
    eq_iff entry.0 other,
    eq_iff key other,
  )

  pub lookup-insert_self :
      (key : String) (value : V) (entries : Map V)
      → lookup key (insert key value entries) ≡ some value
  lookup-insert_self key value entries = simp (eq_refl, lookup-insert)

  pub lookup-touch :
      (k j : String) (d : V) (m : Map V)
      → lookup j (touch k d m) ≡ (if k == j then some (index k d m) else lookup j m)
  lookup-touch k j d m = ground (arith, eq_iff k j, lookup-insert k j d m)

  pub index-touch : (k j : String) (d : V) (m : Map V) → index j d (touch k d m) ≡ index j d m
  index-touch k j d m = ground (arith, eq_iff k j, lookup-touch k j d m)

  -- The number of entries that pass a test.
  unfoldable pub tally : (V → Bool) → Map V → ℕ
  tally p [] = 0
  tally p ((j, v) ∷ m) = bit (p v) + tally p m

  abbrev pub weight : (V → Bool) → Option V → ℕ
  weight p none = 0
  weight p (some v) = bit (p v)

  -- A write moves the count by the value that it adds and by the one that it replaces.
  pub tally-insert :
      (p : V → Bool) (k : String) (v : V) (m : Map V)
      → tally p (insert k v m) + weight p (lookup k m) ≡ tally p m + bit (p v)
  unfolding lookup insert tally
  tally-insert p k v [] = omega arith
  tally-insert p k v ((j, w) ∷ m) = ground (arith, eq_iff j k, tally-insert p k v m)

module _ {ℓ} {V : Type ℓ} where
  pub length-insert :
      (k : String) (v : V) (m : Map V)
      → length (insert k v m) ≡ (if contains k m then length m else length m + 1)
  unfolding insert lookup
  length-insert k v [] = omega arith
  length-insert k v (entry ∷ m) = ground (arith, length-insert k v m)

  -- How many entries there are with one for a key.
  abbrev pub length_with : String → Map V → ℕ
  length_with k m = if contains k m then length m else length m + 1

  pub length_with-insert :
      (k : String) (v : V) (m : Map V) → length_with k (insert k v m) ≡ length_with k m
  length_with-insert k v m = ground (arith, eq_iff k k, length-insert k v m, lookup-insert k k v m)

  pub length_with-touch :
      (k : String) (v : V) (m : Map V) → length_with k (touch k v m) ≡ length_with k m
  length_with-touch k v m = ground (arith, length_with-insert k v m)
