-- ===== src/Networking/Masks.antt =====
-- Source/networking.cpp: set_ipv6_interface on Windows, which makes the mask and the broadcast address
-- of a prefix.
use impact_socket_set.Base.{
  ℕ, zero, suc, ◌+◌, ◌-◌, ◌*◌, ◌/◌, ◌%◌, ◌^◌, ◌≤◌, ◌<◌, bit_and, bit_or, Bool, true, ltb, leb, ◌==◌,
  if◌then◌else◌, [], ◌∷◌, Bytes, IsByte, All, length, get_or, set_at, replicate, ◌≡◌, refl, ap, ◌∙◌,
  arith, ==_iff, length-set_at,
}
use impact_socket_set.Base.Table.{holds_below, holds_below-at}

-- for (int i = 0; i < count; i++) Byte[i] = 0xFF
unfoldable pub fill_bytes : ℕ → Bytes → Bytes
fill_bytes zero bytes = bytes
fill_bytes (suc count) bytes = set_at count 0xFF (fill_bytes count bytes)

-- A prefix of more than 128 bits is invalid.
unfoldable pub ipv6_mask : ℕ → Bytes
ipv6_mask prefix_length =
    let prefix_bytes = prefix_length / 8 in
    let prefix_bits = prefix_length % 8 in
    let full = fill_bytes prefix_bytes (replicate 16 0) in
    if leb prefix_length 128
    then (if ltb prefix_bytes 16
        then set_at prefix_bytes ((0xFF * 2 ^ (8 - prefix_bits)) % 256) full
        else full)
    else fill_bytes 16 (replicate 16 0)

-- (unsigned char)(A & B | ~A)
unfoldable pub broadcast_byte : ℕ → ℕ → ℕ
broadcast_byte mask address = bit_or (bit_and mask address) (255 - mask)

-- for each of the bytes of the mask and the address
unfoldable pub broadcast_bytes : Bytes → Bytes → Bytes
broadcast_bytes (m ∷ ms) (a ∷ as') = broadcast_byte m a ∷ broadcast_bytes ms as'
broadcast_bytes _ _ = []

unfoldable pub ipv6_broadcast : ℕ → Bytes → Bytes
ipv6_broadcast prefix_length address = broadcast_bytes (ipv6_mask prefix_length) address

-- How many of the eight bits of byte i are inside the prefix.
abbrev pub kept_bits : ℕ → ℕ → ℕ
kept_bits prefix_length i = if leb (8 * i + 8) prefix_length then 8 else prefix_length - 8 * i

mask_at : ℕ → ℕ → Bool
mask_at prefix_length i =
    get_or (ipv6_mask prefix_length) i 0 == 256 - 2 ^ (8 - kept_bits prefix_length i)

masks_right : holds_below (λ p. holds_below (mask_at p) 16) 129 ≡ true
unfolding holds_below mask_at ipv6_mask fill_bytes
masks_right = refl

broadcast_at : ℕ → ℕ → Bool
broadcast_at k b = broadcast_byte (256 - 2 ^ (8 - k)) b == b - b % 2 ^ (8 - k) + 2 ^ (8 - k) - 1

broadcasts_right : holds_below (λ k. holds_below (broadcast_at k) 256) 9 ≡ true
unfolding holds_below broadcast_at broadcast_byte
broadcasts_right = refl

length-fill_bytes : (count : ℕ) (bytes : Bytes) → length (fill_bytes count bytes) ≡ length bytes
unfolding fill_bytes
length-fill_bytes zero bytes = refl
length-fill_bytes (suc count) bytes =
    length-set_at count 0xFF (fill_bytes count bytes) ∙ length-fill_bytes count bytes

length-ipv6_mask : (p : ℕ) → length (ipv6_mask p) ≡ 16
unfolding ipv6_mask
length-ipv6_mask p =
    let full = fill_bytes (p / 8) (replicate 16 0) in
    ground (
      arith,
      length-fill_bytes (p / 8) (replicate 16 0),
      length-fill_bytes 16 (replicate 16 0),
      length-set_at (p / 8) ((0xFF * 2 ^ (8 - p % 8)) % 256) full,
    )

get_or-broadcast_bytes :
    (ms bs : Bytes) (i : ℕ)
    → i < length ms
    → i < length bs
    → get_or (broadcast_bytes ms bs) i 0 ≡ broadcast_byte (get_or ms i 0) (get_or bs i 0)
unfolding broadcast_bytes
get_or-broadcast_bytes [] bs i lt lt2 = absurd (omega (arith, lt))
get_or-broadcast_bytes (m ∷ ms) [] i lt lt2 = absurd (omega (arith, lt2))
get_or-broadcast_bytes (m ∷ ms) (b ∷ bs) zero lt lt2 = refl
get_or-broadcast_bytes (m ∷ ms) (b ∷ bs) (suc i) lt lt2 =
    get_or-broadcast_bytes ms bs i (omega (arith, lt)) (omega (arith, lt2))

get_or-IsByte : (bs : Bytes) (i : ℕ) → All IsByte bs → get_or bs i 0 < 256
get_or-IsByte [] i h = omega arith
get_or-IsByte (b ∷ bs) zero h = h.0
get_or-IsByte (b ∷ bs) (suc i) h = get_or-IsByte bs i h.1

-- For a prefix of at most 128 bits, each byte of the mask has the bits inside the prefix set and the
-- others clear, and each byte of the broadcast address has the bits of the address inside the prefix
-- and ones in the others.
pub ipv6_broadcast_bits :
    (p i : ℕ) (address : Bytes)
    → p ≤ 128
    → i < 16
    → length address ≡ 16
    → All IsByte address
    → let low = 2 ^ (8 - kept_bits p i) in
      let b = get_or address i 0 in
      (get_or (ipv6_mask p) i 0 ≡ 256 - low)
      × (get_or (ipv6_broadcast p address) i 0 ≡ b - b % low + low - 1)
unfolding ipv6_broadcast mask_at broadcast_at
ipv6_broadcast_bits p i address small inside size bytes =
    let k = kept_bits p i in
    let b = get_or address i 0 in
    let row : holds_below (mask_at p) 16 ≡ true =
      holds_below-at (λ q. holds_below (mask_at q) 16) 129 masks_right p (omega (arith, small)) in
    let mask : get_or (ipv6_mask p) i 0 ≡ 256 - 2 ^ (8 - k) =
      (==_iff (get_or (ipv6_mask p) i 0) (256 - 2 ^ (8 - k))).0
        (holds_below-at (mask_at p) 16 row i inside) in
    let few : k < 9 = ground (arith, small) in
    let column : holds_below (broadcast_at k) 256 ≡ true =
      holds_below-at (λ q. holds_below (broadcast_at q) 256) 9 broadcasts_right k few in
    let byte : broadcast_byte (256 - 2 ^ (8 - k)) b ≡ b - b % 2 ^ (8 - k) + 2 ^ (8 - k) - 1 =
      (==_iff (broadcast_byte (256 - 2 ^ (8 - k)) b) (b - b % 2 ^ (8 - k) + 2 ^ (8 - k) - 1)).0
        (holds_below-at (broadcast_at k) 256 column b (get_or-IsByte address i bytes)) in
    (
      mask,
      get_or-broadcast_bytes (ipv6_mask p) address i (omega (arith, inside, length-ipv6_mask p))
            (omega (arith, inside, size))
          ∙ ap (λ m. broadcast_byte m b) mask
          ∙ byte,
    )
