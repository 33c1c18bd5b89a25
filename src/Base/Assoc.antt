-- ===== src/Base/Assoc.antt =====
-- `std::map<int, T>` as an association list: the order of the keys is never observed.
use Prim.Native.Nat.{ℕ}
use mathlib.Core.Path.{◌≡◌, refl}
use mathlib.Core.Logic.{inl, inr}
use mathlib.Core.Bool.{Bool, true, false}
use mathlib.Core.Option.{Option, none, some}
use mathlib.Core.List.{List, [], ◌∷◌}
use native.Mathlib.Omega.{arith}
use impact_socket_set.Base.Tests.{◌==◌, if◌then◌else◌, Bool-cases}

abbrev pub Assoc {ℓ} : Type ℓ → Type ℓ
Assoc T = List (ℕ × T)

module _ {ℓ} {T : Type ℓ} where
  -- `map.find(key)`
  abbrev pub lookup : ℕ → Assoc T → Option T
  lookup key [] = none
  lookup key (entry ∷ rest) = if entry.0 == key then some entry.1 else lookup key rest

  abbrev pub has : ℕ → Assoc T → Bool
  has key [] = false
  has key (entry ∷ rest) = if entry.0 == key then true else has key rest

  -- `map[key] = value`
  abbrev pub assign : ℕ → T → Assoc T → Assoc T
  assign key value [] = (key, value) ∷ []
  assign key value (entry ∷ rest) =
      if entry.0 == key then (key, value) ∷ rest else entry ∷ assign key value rest

  -- `map.erase(map.find(key))` of a key that is there
  abbrev pub erase_key : ℕ → Assoc T → Assoc T
  erase_key key [] = []
  erase_key key (entry ∷ rest) =
      if entry.0 == key then erase_key key rest else entry ∷ erase_key key rest

  pub lookup-assign :
      (other key : ℕ) (value : T) (entries : Assoc T)
      → lookup other (assign key value entries)
        ≡ (if key == other then some value else lookup other entries)
  lookup-assign other key value [] = refl
  lookup-assign other key value (entry ∷ rest) = ground (arith, lookup-assign other key value rest)

  pub lookup-erase_key :
      (other key : ℕ) (entries : Assoc T)
      → lookup other (erase_key key entries) ≡ (if key == other then none else lookup other entries)
  lookup-erase_key other key [] = ground arith
  lookup-erase_key other key (entry ∷ rest) = ground (arith, lookup-erase_key other key rest)

  pub has-assign :
      (other key : ℕ) (value : T) (entries : Assoc T)
      → has other (assign key value entries) ≡ (if key == other then true else has other entries)
  has-assign other key value [] = refl
  has-assign other key value (entry ∷ rest) = ground (arith, has-assign other key value rest)

  pub has-erase_key :
      (other key : ℕ) (entries : Assoc T)
      → has other (erase_key key entries) ≡ (if key == other then false else has other entries)
  has-erase_key other key [] = ground arith
  has-erase_key other key (entry ∷ rest) = ground (arith, has-erase_key other key rest)

  pub lookup-found :
      (key : ℕ) (entries : Assoc T)
      → has key entries ≡ true
      → (value : T) × (lookup key entries ≡ some value)
  lookup-found key [] found = cc
  lookup-found key (entry ∷ rest) found = elim (Bool-cases (entry.0 == key)) [
    | inl e ↦ (entry.1, ground (arith, e))
    | inr e ↦
        let below = lookup-found key rest (ground (arith, e, found)) in
        (below.0, ground (arith, e, below.1))
  ]

  pub lookup-missing :
      (key : ℕ) (entries : Assoc T) → has key entries ≡ false → lookup key entries ≡ none
  lookup-missing key [] missing = refl
  lookup-missing key (entry ∷ rest) missing = ground (arith, lookup-missing key rest)

  pub has-lookup :
      (key : ℕ) (entries : Assoc T) → lookup key entries ≡ none → has key entries ≡ false
  has-lookup key [] missing = refl
  has-lookup key (entry ∷ rest) missing = ground (arith, has-lookup key rest, missing)
