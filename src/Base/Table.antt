-- ===== src/Base/Table.antt =====
-- Facts about small ranges, by evaluation of every value.
use Prim.Native.Nat.{ℕ, zero, suc, ◌<◌}
use mathlib.Core.Path.{◌≡◌}
use mathlib.Core.Bool.{Bool, true, ◌&&◌}
use mathlib.Core.Logic.{inl, inr}
use native.Mathlib.Omega.{arith}
use impact_socket_set.Base.Tests.{◌==◌, ==_iff, Bool-cases}

-- A test passes on every number below a bound.
unfoldable pub holds_below : (ℕ → Bool) → ℕ → Bool
holds_below test zero = true
holds_below test (suc bound) = holds_below test bound && test bound

module _ (test : ℕ → Bool) where
  pub holds_below-at :
      (bound : ℕ) → holds_below test bound ≡ true → (value : ℕ) → value < bound → test value ≡ true
  unfolding holds_below
  holds_below-at zero passed value lt = absurd (omega arith)
  holds_below-at (suc bound) passed value lt = elim (Bool-cases (value == bound)) [
    | inl e ↦
        let last : value ≡ bound = (==_iff value bound).0 e in rw last (ground (arith, passed))
    | inr e ↦ holds_below-at bound (ground (arith, passed)) value (ground (arith, e))
  ]

-- Two functions agree below a bound.
pub agree_below :
    (n : ℕ) (f g : ℕ → ℕ) → holds_below (λ x. f x == g x) n ≡ true → (x : ℕ) → x < n → f x ≡ g x
agree_below n f g same x lt = (==_iff (f x) (g x)).0 (holds_below-at (λ x. f x == g x) n same x lt)
