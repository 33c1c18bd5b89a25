-- ===== src/BitOps/Tests.antt =====
-- Runs of the byte-order code at concrete inputs.
use impact_socket_set.Base.{ℕ, true, if◌then◌else◌, ◌≡◌, refl, arith}
use mathlib.Core.List.{reverse}
use impact_socket_set.BitOps.{
  bit_swap, byte_swap_16, byte_swap_32, byte_swap_64, to_big_endian_64, to_little_endian_64,
}
use impact_socket_set.BitOps.Order.{bytes_of, stored, same, endian_64_stored}

abbrev word : ℕ
word = 0x0123456789ABCDEF

-- A little-endian machine on which both macros are defined: both conversions swap.
endian_64_stored_example :
    (stored true 8 (to_big_endian_64 true word)
      ≡ (if same true true then reverse (bytes_of 8 word) else bytes_of 8 word))
    × (stored true 8 (to_little_endian_64 true word)
        ≡ (if same true true then reverse (bytes_of 8 word) else bytes_of 8 word))
endian_64_stored_example = endian_64_stored true true true word (omega arith)

byte_swap_64-word : byte_swap_64 word ≡ 0xEFCDAB8967452301
unfolding byte_swap_64 byte_swap_32 byte_swap_16
byte_swap_64-word = refl

bit_swap_byte : bit_swap 0x1D ≡ 0xB8
unfolding bit_swap
bit_swap_byte = refl
