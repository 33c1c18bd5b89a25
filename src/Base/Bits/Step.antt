-- ===== src/Base/Bits/Step.antt =====
-- The lowest bit of a native bit operation, and what follows for any operation that acts bit by
-- bit. Prim.Native.Nat defines the operations by `digits`, whose first argument is fuel.
use Prim.Native.Nat.{
  ℕ, zero, suc, ◌+◌, ◌*◌, ◌/◌, ◌%◌, ◌≤◌, min, max, digits, bitwise, bit_and, bit_or,
  bit_and-bitwise, bit_or-bitwise,
}
use mathlib.Core.Path.{◌≡◌, refl, ap, ◌∙◌}
use mathlib.Core.Logic.{inl, inr}
use native.Mathlib.Omega.{arith}
use impact_socket_set.Base.Tests.{◌==◌, ==_iff, Bool-cases}

module _ (z : ℕ → ℕ) (f : ℕ → ℕ → ℕ) where
  -- One more unit of fuel changes nothing once there is enough.
  digits-suc : (n a b : ℕ) → a ≤ n → digits z f (suc n) a b ≡ digits z f n a b
  digits-suc zero zero b h = refl
  digits-suc zero (suc a) b h = absurd (omega arith)
  digits-suc (suc n) zero b h = refl
  digits-suc (suc n) (suc a) b h =
      ap (λ r. r * 2 + f (suc a % 2) (b % 2)) (digits-suc n (suc a / 2) (b / 2) (omega arith))

  digits-bitwise : (n a b : ℕ) → a ≤ n → digits z f n a b ≡ bitwise z f a b
  digits-bitwise zero zero b h = refl
  digits-bitwise zero (suc a) b h = absurd (omega arith)
  digits-bitwise (suc n) a b h = elim (Bool-cases (a == suc n)) [
    | inl e ↦
        let full : suc n ≡ a = omega (arith, (==_iff a (suc n)).0 e) in
        ap (λ k. digits z f k a b) full
    | inr e ↦
        let below : a ≤ n = ground (arith, e) in digits-suc n a b below ∙ digits-bitwise n a b below
  ]

  lowest :
      ((b : ℕ) → z b ≡ z (b / 2) * 2 + f 0 (b % 2))
      → (a b : ℕ) → bitwise z f a b ≡ bitwise z f (a / 2) (b / 2) * 2 + f (a % 2) (b % 2)
  lowest h zero b = h b
  lowest h (suc a) b =
      ap (λ r. r * 2 + f (suc a % 2) (b % 2)) (digits-bitwise a (suc a / 2) (b / 2) (omega arith))

pub bit_or-halves : (a b : ℕ) → bit_or a b ≡ bit_or (a / 2) (b / 2) * 2 + max (a % 2) (b % 2)
bit_or-halves a b = simp bit_or-bitwise (lowest (λ y. y) max (λ y. omega arith) a b)

pub bit_and-halves : (a b : ℕ) → bit_and a b ≡ bit_and (a / 2) (b / 2) * 2 + min (a % 2) (b % 2)
bit_and-halves a b = simp bit_and-bitwise (lowest (λ y. 0) min (λ y. omega arith) a b)

-- An operation that acts bit by bit commutes if it does so on single bits.
pub commutes :
    (op f : ℕ → ℕ → ℕ)
    → ((a b : ℕ) → op a b ≡ op (a / 2) (b / 2) * 2 + f (a % 2) (b % 2))
    → ((x y : ℕ) → f x y ≡ f y x)
    → (n a b : ℕ) → a + b ≤ n
    → op a b ≡ op b a
commutes op f halves sym_f zero a b h = let e : a ≡ b = omega arith in rw e refl
commutes op f halves sym_f (suc n) a b h = omega (
  arith,
  halves a b,
  halves b a,
  sym_f (a % 2) (b % 2),
  commutes op f halves sym_f n (a / 2) (b / 2) (omega arith),
)
