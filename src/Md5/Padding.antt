-- ===== src/Md5/Padding.antt =====
-- The padded message of `_S_preprocess`.
use native.Mathlib.Nat.{pow-suc, div-div-eq-div-mul}
use impact_socket_set.Base.{
  ℕ, zero, suc, ◌+◌, ◌-◌, ◌*◌, ◌/◌, ◌%◌, ◌^◌, ◌<◌, bit_and, [], ◌∷◌, ◌++◌, Bytes, length, take,
  take-append, length-append, replicate, length-replicate, replicate-add, append_assoc, ◌≡◌, refl,
  sym, ap, ◌∙◌, arith,
}
use impact_socket_set.Base.Bits.{bit_and_low, double_pow}
use impact_socket_set.BitOps.Order.{bytes_of}
use impact_socket_set.Md5.{zero_pad_length, trailer_from, preprocess}

byte_mask : (x : ℕ) → bit_and x 0xFF ≡ x % 256
byte_mask x = bit_and_low 8 x

pow-plus : (n k : ℕ) → 2 ^ (n + k) ≡ 2 ^ n * 2 ^ k
pow-plus n zero = let e : n + 0 ≡ n = omega arith in ap (λ k. 2 ^ k) e ∙ omega arith
pow-plus n (suc k) =
    let e : n + suc k ≡ suc (n + k) = omega arith in
    ap (λ k. 2 ^ k) e ∙ pow-suc 2 (n + k) ∙ omega (arith, pow-plus n k, double_pow (2 ^ n) k)

next_byte : (size i : ℕ) → size / 2 ^ (8 * (i + 1)) ≡ size / 2 ^ (8 * i) / 256
next_byte size i =
    let place : 8 * (i + 1) ≡ 8 * i + 8 = omega arith in
    let power : 2 ^ (8 * (i + 1)) ≡ 2 ^ (8 * i) * 256 =
      ap (λ k. 2 ^ k) place ∙ pow-plus (8 * i) 8 in
    ap (λ k. size / k) power ∙ sym (div-div-eq-div-mul size (2 ^ (8 * i)) 256)

trailer_from-bytes_of : (n i size : ℕ) → trailer_from n i size ≡ bytes_of n (size / 2 ^ (8 * i))
trailer_from-bytes_of zero i size = refl
trailer_from-bytes_of (suc n) i size =
    ap (λ b. b ∷ trailer_from n (i + 1) size) (byte_mask (size / 2 ^ (8 * i)))
    ∙ ap (◌∷◌ (size / 2 ^ (8 * i) % 256))
        (trailer_from-bytes_of n (i + 1) size ∙ ap (bytes_of n) (next_byte size i))

zero_pad_length-fits :
    (size : ℕ) → (zero_pad_length size < 64) × ((size + 9 + zero_pad_length size) % 64 ≡ 0)
unfolding zero_pad_length
zero_pad_length-fits size = (ground arith, ground arith)

-- Without its last eight bytes the padded text ends in the zeros.
kept :
    (head : Bytes) (zeros : ℕ)
    → take (length (head ++ replicate (zeros + 8) 0) - 8) (head ++ replicate (zeros + 8) 0)
      ≡ head ++ replicate zeros 0
kept head zeros =
    let text : head ++ replicate (zeros + 8) 0 ≡ (head ++ replicate zeros 0) ++ replicate 8 0 =
      ap (λ t. head ++ t) (replicate-add zeros 8 0) ∙ sym (append_assoc head _ _) in
    let place : length (head ++ replicate (zeros + 8) 0) - 8 ≡ length (head ++ replicate zeros 0) =
      omega (
        arith,
        length-append head (replicate (zeros + 8) 0),
        length-append head (replicate zeros 0),
        length-replicate (zeros + 8) 0,
        length-replicate zeros 0,
      ) in
    ap (λ k. take k (head ++ replicate (zeros + 8) 0)) place
    ∙ ap (take (length (head ++ replicate zeros 0))) text
    ∙ take-append (head ++ replicate zeros 0) (replicate 8 0)

-- The message is followed by the byte 0x80, fewer than 64 bytes 0, and its size in bits as eight
-- bytes with the lowest first (modulo 2^64), and the whole is a multiple of 64 bytes long.
pub preprocess-shape :
    (message : Bytes)
    → (zeros : ℕ) × (preprocess message
        ≡ (message ++ (0x80 ∷ []))
          ++ (replicate zeros 0 ++ bytes_of 8 (length message * 8 % 2 ^ 64)))
      × (zeros < 64)
      × (length (preprocess message) % 64 ≡ 0)
unfolding preprocess
preprocess-shape message =
    let size = length message in
    let zeros = zero_pad_length size in
    let head = message ++ (0x80 ∷ []) in
    let fits = zero_pad_length-fits size in
    let trailer : trailer_from 8 0 (size * 8 % 2 ^ 64) ≡ bytes_of 8 (size * 8 % 2 ^ 64) =
      trailer_from-bytes_of 8 0 (size * 8 % 2 ^ 64) ∙ ap (bytes_of 8) (omega arith) in
    let shape : preprocess message ≡ head ++ (replicate zeros 0 ++ bytes_of 8 (size * 8 % 2 ^ 64)) =
      ap (λ t. t ++ trailer_from 8 0 (size * 8 % 2 ^ 64)) (kept head zeros)
      ∙ ap (λ t. (head ++ replicate zeros 0) ++ t) trailer
      ∙ append_assoc head _ _ in
    let total : length (preprocess message) ≡ size + 9 + zeros =
      ap length shape
      ∙ omega (
        arith,
        length-append head (replicate zeros 0 ++ bytes_of 8 (size * 8 % 2 ^ 64)),
        length-append message (0x80 ∷ []),
        length-append (replicate zeros 0) (bytes_of 8 (size * 8 % 2 ^ 64)),
        length-replicate zeros 0,
      ) in
    (zeros, shape, fits.0, ap (λ n. n % 64) total ∙ fits.1)
