-- ===== src/BitOps/Order.antt =====
-- The swaps reverse the order of bytes, or of bits.
use impact_socket_set.Base.{
  ℕ, zero, suc, ◌+◌, ◌*◌, ◌/◌, ◌%◌, ◌^◌, ◌<◌, ◌==◌, bit_or, Bool, true, false, not, if◌then◌else◌,
  List, [], ◌∷◌, ◌≡◌, ◌∙◌, refl, ap, arith,
}
use impact_socket_set.Base.Bits.{◌<<◌, bit_or_comm, bit_or_disjoint, bit_and_low, bit_and_field}
use impact_socket_set.Base.Table.{holds_below, agree_below}
use impact_socket_set.BitOps.{
  bit_swap, byte_swap_16, byte_swap_32, byte_swap_64, to_big_endian_16, to_little_endian_16,
  to_big_endian_32, to_little_endian_32, to_big_endian_64, to_little_endian_64,
}
use mathlib.Core.List.{reverse, reverse-reverse}

-- The `n` lowest digits of `x` to base `b`, lowest first.
abbrev pub digits_of : ℕ → ℕ → ℕ → List ℕ
digits_of b zero x = []
digits_of b (suc n) x = (x % b) ∷ digits_of b n (x / b)

abbrev pub bytes_of : ℕ → ℕ → List ℕ
bytes_of = digits_of 256

swap_16_sum : (t : ℕ) → t < 2 ^ 16 → byte_swap_16 t ≡ t % 256 * 256 + t / 256
unfolding byte_swap_16
swap_16_sum t h =
    rw (bit_and_low 8 t, bit_and_field 8 8 t)
      (omega (arith, bit_or_disjoint 8 (t % 256) (t / 256 % 256 * 256 / 256)))

swap_16_lt : (t : ℕ) → byte_swap_16 t < 2 ^ 16
unfolding byte_swap_16
swap_16_lt t = omega arith

-- A high field behind a low one, in the order in which the swaps write them.
or_swapped : (k q r : ℕ) → r < 2 ^ k → bit_or r (q << k) ≡ q * 2 ^ k + r
or_swapped k q r fits = bit_or_comm r (q << k) ∙ bit_or_disjoint k q r fits

swap_32_sum :
    (t : ℕ)
    → t < 2 ^ 32
    → byte_swap_32 t ≡ byte_swap_16 (t % 2 ^ 16) * 2 ^ 16 + byte_swap_16 (t / 2 ^ 16)
unfolding byte_swap_32
swap_32_sum t h =
    let e : t / 2 ^ 16 % 2 ^ 16 ≡ t / 2 ^ 16 = omega arith in
    let k : t % 2 ^ 16 % 2 ^ 16 ≡ t % 2 ^ 16 = omega arith in
    rw (bit_and_low 16 t, e, k)
      (omega (
        arith,
        swap_16_lt (t / 2 ^ 16),
        swap_16_lt (t % 2 ^ 16),
        or_swapped 16 (byte_swap_16 (t % 2 ^ 16)) (byte_swap_16 (t / 2 ^ 16)) (swap_16_lt _),
      ))

swap_32_lt : (t : ℕ) → byte_swap_32 t < 2 ^ 32
unfolding byte_swap_32
swap_32_lt t = omega arith

swap_64_sum :
    (t : ℕ)
    → t < 2 ^ 64
    → byte_swap_64 t ≡ byte_swap_32 (t % 2 ^ 32) * 2 ^ 32 + byte_swap_32 (t / 2 ^ 32)
unfolding byte_swap_64
swap_64_sum t h =
    let e : t / 2 ^ 32 % 2 ^ 32 ≡ t / 2 ^ 32 = omega arith in
    let k : t % 2 ^ 32 % 2 ^ 32 ≡ t % 2 ^ 32 = omega arith in
    let fits : byte_swap_32 (t % 2 ^ 32) * 2 ^ 32 % 2 ^ 64 ≡ byte_swap_32 (t % 2 ^ 32) * 2 ^ 32 =
      omega (arith, swap_32_lt (t % 2 ^ 32)) in
    rw (bit_and_low 32 t, e, k, fits)
      (omega (
        arith,
        swap_32_lt (t / 2 ^ 32),
        swap_32_lt (t % 2 ^ 32),
        or_swapped 32 (byte_swap_32 (t % 2 ^ 32)) (byte_swap_32 (t / 2 ^ 32)) (swap_32_lt _),
      ))

swap_64_lt : (t : ℕ) → byte_swap_64 t < 2 ^ 64
unfolding byte_swap_64
swap_64_lt t = omega arith

swap_32_bytes :
    (t : ℕ)
    → t < 2 ^ 32
    → byte_swap_32 t
      ≡ t % 256 * 2 ^ 24 + t / 2 ^ 8 % 256 * 2 ^ 16 + t / 2 ^ 16 % 256 * 2 ^ 8 + t / 2 ^ 24
swap_32_bytes t h = omega (
  arith,
  swap_32_sum t h,
  swap_16_sum (t % 2 ^ 16) (omega arith),
  swap_16_sum (t / 2 ^ 16) (omega arith),
)

-- Swapping a word of 16, 32 or 64 bits reverses its bytes.
pub byte_swap_16_reverses :
    (t : ℕ) → t < 2 ^ 16 → bytes_of 2 (byte_swap_16 t) ≡ reverse (bytes_of 2 t)
byte_swap_16_reverses t h = ground (arith, swap_16_sum t h)

pub byte_swap_32_reverses :
    (t : ℕ) → t < 2 ^ 32 → bytes_of 4 (byte_swap_32 t) ≡ reverse (bytes_of 4 t)
byte_swap_32_reverses t h = ground (arith, swap_32_bytes t h)

pub byte_swap_64_reverses :
    (t : ℕ) → t < 2 ^ 64 → bytes_of 8 (byte_swap_64 t) ≡ reverse (bytes_of 8 t)
byte_swap_64_reverses t h = ground (
  arith,
  swap_64_sum t h,
  swap_32_bytes (t % 2 ^ 32) (omega arith),
  swap_32_bytes (t / 2 ^ 32) (omega arith),
)

-- What memory holds, lowest address first, when a machine stores a word of `n` bytes.
abbrev pub stored : Bool → ℕ → ℕ → List ℕ
stored little n w = if little then bytes_of n w else reverse (bytes_of n w)

abbrev pub same : Bool → Bool → Bool
same true b = b
same false b = not b

swapped_back : (t : ℕ) → t < 2 ^ 64 → reverse (bytes_of 8 (byte_swap_64 t)) ≡ bytes_of 8 t
swapped_back t h = ap reverse (byte_swap_64_reverses t h) ∙ reverse-reverse (bytes_of 8 t)

stored_swapped :
    (little swaps : Bool) (t : ℕ)
    → t < 2 ^ 64
    → stored little 8 (if swaps then byte_swap_64 t else t)
      ≡ (if same little swaps then reverse (bytes_of 8 t) else bytes_of 8 t)
stored_swapped true true t h = byte_swap_64_reverses t h
stored_swapped true false t h = refl
stored_swapped false true t h = swapped_back t h
stored_swapped false false t h = refl

-- On a machine of either order, whichever of the two macros are defined: a word converted by
-- `to_big_endian_64` is stored with its highest byte first where LITTLE_ENDIAN is defined on a
-- little-endian machine or is not on a big-endian one, and else with its lowest byte first; a word
-- converted by `to_little_endian_64` is stored with its lowest byte first where BIG_ENDIAN is defined
-- on a big-endian machine or is not on a little-endian one, and else with its highest byte first.
pub endian_64_stored :
    (little little_defined big_defined : Bool) (t : ℕ)
    → t < 2 ^ 64
    → (stored little 8 (to_big_endian_64 little_defined t)
        ≡ (if same little little_defined then reverse (bytes_of 8 t) else bytes_of 8 t))
      × (stored little 8 (to_little_endian_64 big_defined t)
          ≡ (if same little big_defined then reverse (bytes_of 8 t) else bytes_of 8 t))
unfolding to_big_endian_64 to_little_endian_64
endian_64_stored little little_defined big_defined t h =
    (stored_swapped little little_defined t h, stored_swapped little big_defined t h)

-- The same for words of 16 and of 32 bits.
pub endian_stored :
    (little : Bool) (t u : ℕ)
    → t < 2 ^ 16
    → u < 2 ^ 32
    → (stored little 2 (to_big_endian_16 little t) ≡ reverse (bytes_of 2 t))
      × (stored little 2 (to_little_endian_16 (not little) t) ≡ bytes_of 2 t)
      × (stored little 4 (to_big_endian_32 little u) ≡ reverse (bytes_of 4 u))
      × (stored little 4 (to_little_endian_32 (not little) u) ≡ bytes_of 4 u)
unfolding to_big_endian_16 to_little_endian_16 to_big_endian_32 to_little_endian_32
endian_stored true t u h k = (byte_swap_16_reverses t h, refl, byte_swap_32_reverses u k, refl)
endian_stored false t u h k = (
  refl,
  ap reverse (byte_swap_16_reverses t h) ∙ reverse-reverse (bytes_of 2 t),
  refl,
  ap reverse (byte_swap_32_reverses u k) ∙ reverse-reverse (bytes_of 4 u),
)

-- The digits of `t`, lowest first, are put together again.
abbrev pub value_of : ℕ → List ℕ → ℕ
value_of b [] = 0
value_of b (d ∷ ds) = d + b * value_of b ds

bit_swap_table : holds_below (λ t. bit_swap t == value_of 2 (reverse (digits_of 2 8 t))) 256 ≡ true
unfolding holds_below bit_swap
bit_swap_table = refl

-- `bit_swap` reverses the eight bits of every byte.
pub bit_swap_reverses : (t : ℕ) → t < 256 → bit_swap t ≡ value_of 2 (reverse (digits_of 2 8 t))
bit_swap_reverses t h =
    agree_below 256 bit_swap (λ t. value_of 2 (reverse (digits_of 2 8 t))) bit_swap_table t h

-- Swapping the bytes of a 64-bit word twice gives the word back.
pub byte_swap_64_twice : (t : ℕ) → t < 2 ^ 64 → byte_swap_64 (byte_swap_64 t) ≡ t
byte_swap_64_twice t h = omega (
  arith,
  swap_64_sum t h,
  swap_32_bytes (t % 2 ^ 32) (omega arith),
  swap_32_bytes (t / 2 ^ 32) (omega arith),
  swap_64_sum (byte_swap_64 t) (swap_64_lt t),
  swap_32_bytes (byte_swap_64 t % 2 ^ 32) (omega arith),
  swap_32_bytes (byte_swap_64 t / 2 ^ 32) (omega (arith, swap_64_lt t)),
)
