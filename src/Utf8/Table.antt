-- ===== src/Utf8/Table.antt =====
-- The table of RFC 3629, section 3, in plain arithmetic, and the code's bytes against it.
use impact_socket_set.Base.{
  ℕ, ◌+◌, ◌/◌, ◌%◌, ◌^◌, ◌<◌, bit_and, bit_or, Bool, not, ◌&&◌, leb, within, if◌then◌else◌, some,
  none, [], ◌∷◌, Bytes, length, ◌≡◌, arith,
}
use impact_socket_set.Base.Bits.{bit_or_disjoint, bit_and_low}
use impact_socket_set.Utf8.{estimate_buf_size, encode}

-- A Unicode scalar value: no surrogate, and at most U+10FFFF.
abbrev pub is_scalar : ℕ → Bool
is_scalar c = leb c 0x10FFFF && not (within 0xD800 0xDFFF c)

-- A trailing byte with the six bits from place `k` on.
abbrev pub trail : ℕ → ℕ → ℕ
trail k c = 0x80 + c / 2 ^ k % 64

unfoldable pub utf8_of : ℕ → Bytes
utf8_of c =
    if leb c 0x7F
    then c ∷ []
    else if leb c 0x7FF
    then (0xC0 + c / 2 ^ 6) ∷ trail 0 c ∷ []
    else if leb c 0xFFFF
    then (0xE0 + c / 2 ^ 12) ∷ trail 6 c ∷ trail 0 c ∷ []
    else (0xF0 + c / 2 ^ 18) ∷ trail 12 c ∷ trail 6 c ∷ trail 0 c ∷ []

trail_byte : (x : ℕ) → bit_or 0x80 (bit_and x 0x3F) ≡ 0x80 + x % 64
trail_byte x = rw (bit_and_low 6 x) (bit_or_disjoint 7 1 (x % 64) (omega arith))

-- `_S_encode` pushes the bytes of the table of RFC 3629, for every value below 0x110000.
pub encode-utf8_of : (c : ℕ) → c < 0x110000 → encode c ≡ utf8_of c
unfolding encode utf8_of
encode-utf8_of c h = ground (
  arith,
  trail_byte c,
  trail_byte (c / 2 ^ 6),
  trail_byte (c / 2 ^ 12),
  bit_or_disjoint 5 6 (c / 2 ^ 6),
  bit_or_disjoint 4 14 (c / 2 ^ 12),
  bit_or_disjoint 3 30 (c / 2 ^ 18),
)

-- `_S_estimate_buf_size` rejects exactly what is no scalar value, and counts the bytes otherwise.
pub estimate_buf_size-length :
    (c : ℕ) → estimate_buf_size c ≡ (if is_scalar c then some (length (utf8_of c)) else none)
unfolding estimate_buf_size utf8_of
estimate_buf_size-length c = ground arith
