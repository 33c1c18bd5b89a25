-- ===== src/Md5.antt =====
-- Source/rfc/md5.cpp: the MD5 digest of a whole message (RFC 1321).
-- `var` is a 32-bit word and `size_t` has 64 bits; a message is a list of bytes.
pub mod Padding
mod Tests
use Prim.Native.Nat.{bit_xor}
use impact_socket_set.Base.{
  ℕ, zero, suc, ◌+◌, ◌-◌, ◌*◌, ◌/◌, ◌%◌, ◌^◌, bit_and, bit_or, Bool, leb, if◌then◌else◌, List, [],
  ◌∷◌, ◌++◌, Bytes, length, get_or, take, replicate,
}
use impact_socket_set.Base.Bits.{◌<<◌, ◌>>◌}

unfoldable pub shifts : List ℕ
shifts =
    7 ∷ 12 ∷ 17 ∷ 22 ∷ 7 ∷ 12 ∷ 17 ∷ 22 ∷ 7 ∷ 12 ∷ 17 ∷ 22 ∷ 7 ∷ 12 ∷ 17 ∷ 22 ∷ 5 ∷ 9 ∷ 14 ∷ 20 ∷ 5
    ∷ 9 ∷ 14 ∷ 20 ∷ 5 ∷ 9 ∷ 14 ∷ 20 ∷ 5 ∷ 9 ∷ 14 ∷ 20 ∷ 4 ∷ 11 ∷ 16 ∷ 23 ∷ 4 ∷ 11 ∷ 16 ∷ 23 ∷ 4 ∷ 11
    ∷ 16 ∷ 23 ∷ 4 ∷ 11 ∷ 16 ∷ 23 ∷ 6 ∷ 10 ∷ 15 ∷ 21 ∷ 6 ∷ 10 ∷ 15 ∷ 21 ∷ 6 ∷ 10 ∷ 15 ∷ 21 ∷ 6 ∷ 10
    ∷ 15 ∷ 21 ∷ []

unfoldable pub sines : List ℕ
sines =
    0xd76aa478 ∷ 0xe8c7b756 ∷ 0x242070db ∷ 0xc1bdceee ∷ 0xf57c0faf ∷ 0x4787c62a ∷ 0xa8304613
    ∷ 0xfd469501 ∷ 0x698098d8 ∷ 0x8b44f7af ∷ 0xffff5bb1 ∷ 0x895cd7be ∷ 0x6b901122 ∷ 0xfd987193
    ∷ 0xa679438e ∷ 0x49b40821 ∷ 0xf61e2562 ∷ 0xc040b340 ∷ 0x265e5a51 ∷ 0xe9b6c7aa ∷ 0xd62f105d
    ∷ 0x02441453 ∷ 0xd8a1e681 ∷ 0xe7d3fbc8 ∷ 0x21e1cde6 ∷ 0xc33707d6 ∷ 0xf4d50d87 ∷ 0x455a14ed
    ∷ 0xa9e3e905 ∷ 0xfcefa3f8 ∷ 0x676f02d9 ∷ 0x8d2a4c8a ∷ 0xfffa3942 ∷ 0x8771f681 ∷ 0x6d9d6122
    ∷ 0xfde5380c ∷ 0xa4beea44 ∷ 0x4bdecfa9 ∷ 0xf6bb4b60 ∷ 0xbebfbc70 ∷ 0x289b7ec6 ∷ 0xeaa127fa
    ∷ 0xd4ef3085 ∷ 0x04881d05 ∷ 0xd9d4d039 ∷ 0xe6db99e5 ∷ 0x1fa27cf8 ∷ 0xc4ac5665 ∷ 0xf4292244
    ∷ 0x432aff97 ∷ 0xab9423a7 ∷ 0xfc93a039 ∷ 0x655b59c3 ∷ 0x8f0ccc92 ∷ 0xffeff47d ∷ 0x85845dd1
    ∷ 0x6fa87e4f ∷ 0xfe2ce6e0 ∷ 0xa3014314 ∷ 0x4e0811a1 ∷ 0xf7537e82 ∷ 0xbd3af235 ∷ 0x2ad7d2bb
    ∷ 0xeb86d391 ∷ []

-- zero_pad_length, for the size of the message
unfoldable pub zero_pad_length : ℕ → ℕ
zero_pad_length size =
    let modulo1 = (size + 1) % 64 in if leb modulo1 56 then 56 - modulo1 else 120 - modulo1

-- for (...) trailer[i] = 0xFF & (original_size >> (8 * i)), from `i` on
abbrev pub trailer_from : ℕ → ℕ → ℕ → Bytes
trailer_from zero i size = []
trailer_from (suc count) i size = bit_and (size >> (8 * i)) 0xFF ∷ trailer_from count (i + 1) size

-- The last eight characters are overwritten.
unfoldable pub preprocess : Bytes → Bytes
preprocess message =
    let size = length message in
    let padded = (message ++ (0x80 ∷ [])) ++ replicate (zero_pad_length size + 8) 0 in
    take (length padded - 8) padded ++ trailer_from 8 0 (size << 3 % 2 ^ 64)

-- A B C D
pub record Registers : Type 0 where
  pub a : ℕ
  pub b : ℕ
  pub c : ℕ
  pub d : ℕ

abbrev not_32 : ℕ → ℕ
not_32 x = 2 ^ 32 - 1 - x

-- F and j of a round
unfoldable pub mix : Registers → ℕ → ℕ × ℕ
mix r i =
    if leb i 15
    then (bit_or (bit_and r.b r.c) (bit_and (not_32 r.b) r.d), i)
    else if leb i 31
    then (bit_or (bit_and r.b r.d) (bit_and r.c (not_32 r.d)), (5 * i + 1) % 16)
    else if leb i 47
    then (bit_xor (bit_xor r.b r.c) r.d, (3 * i + 5) % 16)
    else (bit_xor r.c (bit_or r.b (not_32 r.d)), (7 * i) % 16)

unfoldable pub rotate_left : ℕ → ℕ → ℕ
rotate_left x s = bit_or (x << s % 2 ^ 32) (x >> (32 - s))

-- One round of the main loop.
unfoldable pub round : (ℕ → ℕ) → Registers → ℕ → Registers
round m r i =
    let (f, j) = mix r i in
    let sum = (f + r.a + get_or sines i 0 + m j) % 2 ^ 32 in
    record { a = r.d; b = (r.b + rotate_left sum (get_or shifts i 0)) % 2 ^ 32; c = r.b; d = r.c }

-- The first `n` rounds.
unfoldable pub rounds : ℕ → (ℕ → ℕ) → Registers → Registers
rounds zero m r = r
rounds (suc n) m r = round m (rounds n m r) n

-- M[j] of the chunk
unfoldable pub word : Bytes → ℕ → ℕ → ℕ
word text chunk_index j =
    let byte = λ (k : ℕ). bit_and (get_or text (chunk_index + j * 4 + k) 0) 0xFF in
    bit_or (bit_or (bit_or (byte 0) (byte 1 << 8)) (byte 2 << 16)) (byte 3 << 24)

abbrev add_32 : Registers → Registers → Registers
add_32 r q = record {
  a = (r.a + q.a) % 2 ^ 32;
  b = (r.b + q.b) % 2 ^ 32;
  c = (r.c + q.c) % 2 ^ 32;
  d = (r.d + q.d) % 2 ^ 32;
}

abbrev start : Registers
start = record { a = 0x67452301; b = 0xefcdab89; c = 0x98badcfe; d = 0x10325476 }

-- The first `n` chunks.
unfoldable pub chunks : ℕ → Bytes → Registers
chunks zero text = start
chunks (suc n) text = let r = chunks n text in add_32 r (rounds 64 (word text (n * 64)) r)

abbrev register_bytes : ℕ → Bytes
register_bytes x =
    bit_and x 0xFF ∷ bit_and (x >> 8) 0xFF ∷ bit_and (x >> 16) 0xFF ∷ bit_and (x >> 24) 0xFF ∷ []

-- The loop runs once for each begun chunk of 64.
unfoldable pub process : Bytes → Bytes
process text =
    let r = chunks ((length text + 63) / 64) text in
    register_bytes r.a ++ (register_bytes r.b ++ (register_bytes r.c ++ register_bytes r.d))

unfoldable pub digest : Bytes → Bytes
digest message = process (preprocess message)
