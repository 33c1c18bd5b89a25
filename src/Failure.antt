-- ===== src/Failure.antt =====
-- Include/utils/impact_error.h: code that may throw an impact_error, which is its message() here.
-- What a call has changed stays changed when it throws. CATCH_ASSERT passes an impact_error on, and
-- nothing else is thrown.
mod Tests
pub mod Trace
pub mod Symbols
use impact_socket_set.Base.{ℕ, ◌∙◌, Bytes, ◌≡◌, refl, ◌⊎◌, inl, inr}

pub data Result (A : Type 0) : Type 0 where
  returns : A → Result A
  throws : Bytes → Result A

pub Result-cases :
    {A : Type 0} (r : Result A) → ((a : A) × (r ≡ returns a)) ⊎ ((m : Bytes) × (r ≡ throws m))
Result-cases (returns a) = inl (a, refl)
Result-cases (throws m) = inr (m, refl)

abbrev pub Action {ℓ} : Type ℓ → Type 0 → Type ℓ
Action World A = World → Result A × World

module _ {ℓ} {World : Type ℓ} where
  abbrev pub pure : {A : Type 0} → A → Action World A
  pure a world = (returns a, world)

  abbrev pub throw : {A : Type 0} → Bytes → Action World A
  throw message world = (throws message, world)

  -- A call that does not throw.
  abbrev pub lift : {A : Type 0} → (World → A × World) → Action World A
  lift call world = let (a, after) = call world in (returns a, after)

  abbrev pub continue : {A B : Type 0} → (A → Action World B) → Result A × World → Result B × World
  continue f (returns a, world) = f a world
  continue f (throws message, world) = (throws message, world)

  infixl 5 ◌>>=◌ ◌>>◌
  abbrev pub ◌>>=◌ : {A B : Type 0} → Action World A → (A → Action World B) → Action World B
  ◌>>=◌ m f world = continue f (m world)

  abbrev pub ◌>>◌ : {A B : Type 0} → Action World A → Action World B → Action World B
  m >> k = m >>= λ _. k

-- How a call ends: what holds of what it returns, and of the world if it throws.
module _ {ℓ κ} {World : Type ℓ} {A : Type 0} where
  abbrev pub Ends : (A → World → Type κ) → (World → Type κ) → Result A × World → Type κ
  Ends good bad (returns a, world) = good a world
  Ends good bad (throws message, world) = bad world

  pub Ends-weaken :
      (good good' : A → World → Type κ) (bad bad' : World → Type κ) (r : Result A × World)
      → ((a : A) (w : World) → good a w → good' a w)
      → ((w : World) → bad w → bad' w)
      → Ends good bad r
      → Ends good' bad' r
  Ends-weaken good good' bad bad' (returns a, w) f g h = f a w h
  Ends-weaken good good' bad bad' (throws m, w) f g h = g w h

-- The rule of a sequence: what holds between the two calls.
pub Ends-bind {ℓ κ} :
    {World : Type ℓ} {A B : Type 0} (mid : A → World → Type κ) (good : B → World → Type κ)
    (bad : World → Type κ) (m : Action World A) (f : A → Action World B) (world : World)
    → Ends mid bad (m world)
    → ((a : A) (w : World) → mid a w → Ends good bad (f a w))
    → Ends good bad ((m >>= f) world)
Ends-bind {World} {A} {B} mid good bad m f world h next = go (m world) h
  where
    go : (r : Result A × World) → Ends mid bad r → Ends good bad (continue f r)
    go (returns a, w) h = next a w h
    go (throws message, w) h = h

-- A measure of the world that a call leaves as it was, whether it returns or throws.
abbrev pub Keeps {ℓ} : {World : Type ℓ} {A : Type 0} → (World → ℕ) → Action World A → Type ℓ
Keeps {World = World} measure m = (world : World) → measure (m world).1 ≡ measure world

pub Keeps-bind {ℓ} :
    {World : Type ℓ} {A B : Type 0} (measure : World → ℕ) (m : Action World A)
    (f : A → Action World B)
    → Keeps measure m
    → ((a : A) → Keeps measure (f a))
    → Keeps measure (m >>= f)
Keeps-bind {World} {A} {B} measure m f first next world = go (m world) (measure world) (first world)
  where
    go : (r : Result A × World) (k : ℕ) → measure r.1 ≡ k → measure (continue f r).1 ≡ k
    go (returns a, w) k e = next a w ∙ e
    go (throws message, w) k e = e
