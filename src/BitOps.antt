-- ===== src/BitOps.antt =====
-- Include/utils/bit_ops.h: byte and bit order of fixed-width words.
-- `popcount_32` and `popcount_64` only call the compiler's builtins and are left out. `bit_swap`
-- stands in UNUSED_FUNCTION(…), which drops it from the build: the model is of its text.
pub mod Order
mod Tests
use impact_socket_set.Base.{ℕ, ◌+◌, ◌%◌, ◌^◌, bit_and, bit_or, Bool, if◌then◌else◌}
use impact_socket_set.Base.Bits.{◌<<◌, ◌>>◌}

-- The operands are promoted to `int`, so only the return type cuts bits off.
pub bit_swap : ℕ → ℕ
bit_swap t =
    let s = bit_or (bit_and t 0xF0 >> 4) (bit_and t 0x0F << 4) % 2 ^ 8 in
    let s' = bit_or (bit_and s 0xCC >> 2) (bit_and s 0x33 << 2) % 2 ^ 8 in
    bit_or (bit_and s' 0xAA >> 1) (bit_and s' 0x55 << 1) % 2 ^ 8

pub byte_swap_16 : ℕ → ℕ
byte_swap_16 t = bit_or (bit_and t 0x00FF << 8) (bit_and t 0xFF00 >> 8) % 2 ^ 16

-- An argument of `byte_swap_16` is cut to 16 bits.
pub byte_swap_32 : ℕ → ℕ
byte_swap_32 t =
    bit_or (byte_swap_16 ((t >> 16) % 2 ^ 16)) (byte_swap_16 (bit_and t 0x0000FFFF % 2 ^ 16) << 16)
    % 2 ^ 32

pub byte_swap_64 : ℕ → ℕ
byte_swap_64 t =
    let b = byte_swap_32 (bit_and t 0x00000000FFFFFFFF % 2 ^ 32) in
    bit_or (byte_swap_32 ((t >> 32) % 2 ^ 32)) (b << 32 % 2 ^ 64) % 2 ^ 64

-- The flags are `defined LITTLE_ENDIAN` and `defined BIG_ENDIAN`.
pub to_big_endian_16 : Bool → ℕ → ℕ
to_big_endian_16 little value = if little then byte_swap_16 value else value

pub to_little_endian_16 : Bool → ℕ → ℕ
to_little_endian_16 big value = if big then byte_swap_16 value else value

pub to_big_endian_32 : Bool → ℕ → ℕ
to_big_endian_32 little value = if little then byte_swap_32 value else value

pub to_little_endian_32 : Bool → ℕ → ℕ
to_little_endian_32 big value = if big then byte_swap_32 value else value

pub to_big_endian_64 : Bool → ℕ → ℕ
to_big_endian_64 little value = if little then byte_swap_64 value else value

pub to_little_endian_64 : Bool → ℕ → ℕ
to_little_endian_64 big value = if big then byte_swap_64 value else value
