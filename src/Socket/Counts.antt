-- ===== src/Socket/Counts.antt =====
-- Source/basic_socket.cpp: counting the owners of a cell and the cells of a descriptor.
use impact_socket_set.Base.{
  ℕ, zero, suc, ◌+◌, ◌-◌, ◌≤◌, ◌<◌, ◌==◌, if◌then◌else◌, Option, none, some, List, [], ◌∷◌, ◌++◌,
  length, get_or, set_at, ◌≡◌, ◌≢◌, refl, ap, arith, ◌⊎◌, inl, inr, Bool-cases, ==_iff,
}
use impact_socket_set.Socket.{Info, points_to, count_owners, release}

-- How often a descriptor is in a list.
unfoldable pub count : ℕ → List ℕ → ℕ
count d [] = 0
count d (other ∷ rest) = if other == d then suc (count d rest) else count d rest

pub count-release :
    (d other : ℕ) (xs : List ℕ)
    → count d (release other xs) ≡ count d xs - (if other == d then 1 else 0)
unfolding count
count-release d other [] = omega arith
count-release d other (x ∷ xs) = ground (arith, count-release d other xs)

pub count_all_zero : (xs : List ℕ) → ((d : ℕ) → count d xs ≡ 0) → xs ≡ []
unfolding count
count_all_zero [] none_there = refl
count_all_zero (x ∷ xs) none_there = absurd (ground (arith, none_there x))

pub count_owners-append :
    (cell : ℕ) (xs ys : List (Option ℕ))
    → count_owners cell (xs ++ ys) ≡ count_owners cell xs + count_owners cell ys
count_owners-append cell [] ys = omega arith
count_owners-append cell (x ∷ xs) ys = omega (arith, count_owners-append cell xs ys)

-- A pointer that is written takes the place of the one that was there.
pub count_owners-set_at :
    (cell object : ℕ) (p : Option ℕ) (xs : List (Option ℕ))
    → object < length xs
    → count_owners cell (set_at object p xs) + points_to cell (get_or xs object none)
      ≡ count_owners cell xs + points_to cell p
count_owners-set_at cell object p [] lt = absurd (omega (arith, lt))
count_owners-set_at cell zero p (x ∷ xs) lt = omega arith
count_owners-set_at cell (suc object) p (x ∷ xs) lt =
    omega (arith, count_owners-set_at cell object p xs (omega (arith, lt)))

-- Only an object of the list has a pointer.
pub pointer_inside :
    (object cell : ℕ) (xs : List (Option ℕ))
    → get_or xs object none ≡ some cell
    → object < length xs
pointer_inside object cell [] e = cc
pointer_inside zero cell (x ∷ xs) e = omega arith
pointer_inside (suc object) cell (x ∷ xs) e = omega (arith, pointer_inside object cell xs e)

-- Writing behind the end changes nothing.
pub set_at_outside {ℓ} :
    {A : Type ℓ} (i : ℕ) (a : A) (xs : List A) → length xs ≤ i → set_at i a xs ≡ xs
set_at_outside i a [] out = refl
set_at_outside zero a (x ∷ xs) out = absurd (omega (arith, out))
set_at_outside (suc i) a (x ∷ xs) out = ap (◌∷◌ x) (set_at_outside i a xs (omega (arith, out)))

pub get_or-set_at {ℓ} :
    {A : Type ℓ} (i j : ℕ) (a d : A) (xs : List A)
    → i < length xs
    → get_or (set_at i a xs) j d ≡ (if i == j then a else get_or xs j d)
get_or-set_at i j a d [] lt = absurd (omega (arith, lt))
get_or-set_at zero zero a d (x ∷ xs) lt = refl
get_or-set_at zero (suc j) a d (x ∷ xs) lt = ground arith
get_or-set_at (suc i) zero a d (x ∷ xs) lt = ground arith
get_or-set_at (suc i) (suc j) a d (x ∷ xs) lt =
    ground (arith, get_or-set_at i j a d xs (omega (arith, lt)))

abbrev pub holds_descriptor : ℕ → Option ℕ → ℕ
holds_descriptor d none = 0
holds_descriptor d (some other) = if other == d then 1 else 0

holds_descriptor-cases : (d : ℕ) (p : Option ℕ) → (holds_descriptor d p ≡ 0) ⊎ (p ≡ some d)
holds_descriptor-cases d none = inl refl
holds_descriptor-cases d (some other) = elim (Bool-cases (other == d)) [
  | inl e ↦ inr (ap some ((==_iff other d).0 e))
  | inr e ↦ inl (ground (arith, e))
]

module _ {ℓ} {Kind : Type ℓ} where
  -- How many cells have a descriptor.
  abbrev pub count_cells : ℕ → List (Info Kind) → ℕ
  count_cells d [] = 0
  count_cells d (cell ∷ rest) = holds_descriptor d cell.descriptor + count_cells d rest

  pub count_cells-append :
      (d : ℕ) (xs ys : List (Info Kind))
      → count_cells d (xs ++ ys) ≡ count_cells d xs + count_cells d ys
  count_cells-append d [] ys = omega arith
  count_cells-append d (x ∷ xs) ys = omega (arith, count_cells-append d xs ys)

  pub count_cells-set_at :
      (d i : ℕ) (c void : Info Kind) (xs : List (Info Kind))
      → i < length xs
      → count_cells d (set_at i c xs) + holds_descriptor d (get_or xs i void).descriptor
        ≡ count_cells d xs + holds_descriptor d c.descriptor
  count_cells-set_at d i c void [] lt = absurd (omega (arith, lt))
  count_cells-set_at d zero c void (x ∷ xs) lt = omega arith
  count_cells-set_at d (suc i) c void (x ∷ xs) lt =
      omega (arith, count_cells-set_at d i c void xs (omega (arith, lt)))

  -- Only a cell of the list has a descriptor.
  pub descriptor_inside :
      (i d : ℕ) (void : Info Kind) (xs : List (Info Kind))
      → void.descriptor ≡ none
      → (get_or xs i void).descriptor ≡ some d
      → i < length xs
  descriptor_inside i d void [] empty e = cc
  descriptor_inside zero d void (x ∷ xs) empty e = omega arith
  descriptor_inside (suc i) d void (x ∷ xs) empty e =
      omega (arith, descriptor_inside i d void xs empty e)

  pub get_or-append :
      (xs : List (Info Kind)) (i : ℕ) (c void : Info Kind)
      → get_or (xs ++ (c ∷ [])) i void ≡ (if i == length xs then c else get_or xs i void)
  get_or-append [] zero c void = refl
  get_or-append [] (suc i) c void = ground arith
  get_or-append (x ∷ xs) zero c void = ground arith
  get_or-append (x ∷ xs) (suc i) c void = ground (arith, get_or-append xs i c void)

  -- No cell has a descriptor that none of them has.
  pub count_cells_zero :
      (d : ℕ) (void : Info Kind) (xs : List (Info Kind))
      → ((i : ℕ) → (get_or xs i void).descriptor ≢ some d)
      → count_cells d xs ≡ 0
  count_cells_zero d void [] absent = refl
  count_cells_zero d void (x ∷ xs) absent =
      let rest : count_cells d xs ≡ 0 = count_cells_zero d void xs (λ i. absent (suc i)) in
      elim (holds_descriptor-cases d x.descriptor) [
        | inl e ↦ omega (arith, e, rest)
        | inr e ↦ absurd (absent 0 e)
      ]
