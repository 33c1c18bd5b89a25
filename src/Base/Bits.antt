-- ===== src/Base/Bits.antt =====
-- The bit operations on unsigned values as arithmetic, at every width.
mod Step
use Step.{bit_or-halves, bit_and-halves, commutes}
use Prim.Native.Nat.{
  ℕ, zero, suc, ◌+◌, ◌-◌, ◌*◌, ◌/◌, ◌%◌, ◌^◌, ◌≤◌, ◌<◌, bit_and, bit_or, min, max, bit_and-bitwise,
  bit_or-bitwise,
}
use mathlib.Core.Path.{◌≡◌, refl, ap, ◌∙◌}
use native.Mathlib.Nat.{pow-suc, one-le-pow, div-div-eq-div-mul}
use native.Mathlib.Omega.{arith}

-- x << k and x >> k, before any wrap-around.
infixl 75 ◌<<◌ ◌>>◌
abbrev pub ◌<<◌ : ℕ → ℕ → ℕ
x << k = x * 2 ^ k

abbrev pub ◌>>◌ : ℕ → ℕ → ℕ
x >> k = x / 2 ^ k

abbrev pub low_mask : ℕ → ℕ
low_mask k = 2 ^ k - 1

pub bit_or_comm : (a b : ℕ) → bit_or a b ≡ bit_or b a
bit_or_comm a b = commutes bit_or max bit_or-halves (λ x y. omega arith) (a + b) a b (omega arith)

pub bit_and_comm : (a b : ℕ) → bit_and a b ≡ bit_and b a
bit_and_comm a b =
    commutes bit_and min bit_and-halves (λ x y. omega arith) (a + b) a b (omega arith)

-- With 0 on the left both operations compute.
pub bit_or-zero : (a : ℕ) → bit_or a 0 ≡ a
bit_or-zero a = bit_or_comm a 0 ∙ simp bit_or-bitwise refl

bit_and-zero : (a : ℕ) → bit_and a 0 ≡ 0
bit_and-zero a = bit_and_comm a 0 ∙ simp bit_and-bitwise refl

-- A factor 2 in front of the power.
pub double_pow : (q k : ℕ) → q * 2 ^ suc k ≡ 2 * (q * 2 ^ k)
double_pow q k = omega (arith, ap (λ (power : ℕ). q * power) (pow-suc 2 k))

-- `(q << k) | r` is a sum when `r` fits `k` bits.
pub bit_or_disjoint : (k q r : ℕ) → r < 2 ^ k → bit_or (q << k) r ≡ q * 2 ^ k + r
bit_or_disjoint zero q r lt = let none_left : r ≡ 0 = omega arith in ground (arith, bit_or-zero q)
bit_or_disjoint (suc k) q r lt =
    let above = bit_or_disjoint k q (r / 2) (omega arith) in
    let lowest = bit_or-halves (q << suc k) r in ground (arith, lowest, above, double_pow q k)

low_bits : (k q r : ℕ) → r < 2 ^ k → bit_and (low_mask k) (q * 2 ^ k + r) ≡ r
low_bits zero q r lt = ground (arith, bit_and_comm 0 (q * 1 + r), bit_and-zero (q * 1 + r))
low_bits (suc k) q r lt =
    let above = low_bits k q (r / 2) (omega arith) in
    let lowest = bit_and-halves (low_mask (suc k)) (q * 2 ^ suc k + r) in
    ground (arith, lowest, above, double_pow q k, pow-suc 2 k)

-- A mask of `k` low bits is the remainder by `2 ^ k`.
pub bit_and_low : (k a : ℕ) → bit_and a (low_mask k) ≡ a % 2 ^ k
bit_and_low k a =
    bit_and_comm a (low_mask k) ∙ ground (arith, one-le-pow k 2, low_bits k (a / 2 ^ k) (a % 2 ^ k))

-- A mask of `j` bits above the `k` lowest keeps that field.
pub bit_and_field : (k j a : ℕ) → bit_and a (low_mask j * 2 ^ k) ≡ a / 2 ^ k % 2 ^ j * 2 ^ k
bit_and_field zero j a = ground (arith, bit_and_low j a)
bit_and_field (suc k) j a = ground (
  arith,
  bit_and-halves a (low_mask j * 2 ^ suc k),
  double_pow (low_mask j) k,
  double_pow (a / 2 ^ suc k % 2 ^ j) k,
  pow-suc 2 k,
  div-div-eq-div-mul a 2 (2 ^ k),
  bit_and_field k j (a / 2),
)
