-- ===== src/Sha1.antt =====
-- Source/rfc/sha1.cpp and Include/rfc/sha1.h: the SHA-1 digest of a message (RFC 3174).
-- `unsigned int` has 32 bits; a message is a list of bytes. `digest` is the only caller of the
-- other functions, and passes no null pointer to them. The context that it declares is not
-- initialized, so its content is an argument here.
pub mod Absorb
pub mod Buffer
pub mod Length
pub mod Places
pub mod Padding
pub mod Digest
mod Tests
use Prim.Native.Nat.{bit_xor}
use impact_socket_set.Base.{
  ℕ, zero, suc, ◌+◌, ◌-◌, ◌*◌, ◌/◌, ◌%◌, ◌^◌, bit_and, bit_or, Bool, true, false, ltb, ◌==◌,
  if◌then◌else◌, Option, none, some, List, [], ◌∷◌, ◌++◌, Bytes, length, get_or, set_at, take,
  replicate,
}
use impact_socket_set.Base.Bits.{◌<<◌, ◌>>◌}

pub data Status : Type 0 where
  success nil input_too_long state_error : Status

-- intermediate_hash[0] to [4], and A to E
pub record Words : Type 0 where
  pub a : ℕ
  pub b : ℕ
  pub c : ℕ
  pub d : ℕ
  pub e : ℕ

pub record Context : Type 0 where
  pub intermediate_hash : Words
  pub length_low : ℕ
  pub length_high : ℕ
  pub message_block_index : ℕ
  pub message_block : Bytes
  pub computed : Bool
  pub corrupted : Bool

unfoldable pub circular_shift : ℕ → ℕ → ℕ
circular_shift bits word = bit_or (word << bits % 2 ^ 32) (word >> (32 - bits))

abbrev not_32 : ℕ → ℕ
not_32 x = 2 ^ 32 - 1 - x

abbrev pub initial_hash : Words
initial_hash = record {
  a = 0x67452301;
  b = 0xEFCDAB89;
  c = 0x98BADCFE;
  d = 0x10325476;
  e = 0xC3D2E1F0;
}

unfoldable pub reset : Context → Context
reset context = record context {
  length_low = 0;
  length_high = 0;
  message_block_index = 0;
  intermediate_hash = initial_hash;
  computed = false;
  corrupted = false;
}

-- W[t] of the first sixteen words
abbrev block_word : Bytes → ℕ → ℕ
block_word block t =
    let byte = λ (k : ℕ). get_or block (t * 4 + k) 0 in
    bit_or (bit_or (bit_or (byte 0 << 24 % 2 ^ 32) (byte 1 << 16)) (byte 2 << 8)) (byte 3)

-- The first `n` words.
unfoldable pub block_words : Bytes → ℕ → List ℕ
block_words block zero = []
block_words block (suc n) = block_words block n ++ (block_word block n ∷ [])

-- `n` more words, behind the sixteen.
unfoldable pub schedule : ℕ → List ℕ → List ℕ
schedule zero words = words
schedule (suc n) words =
    let w = schedule n words in
    let at = λ (back : ℕ). get_or w (16 + n - back) 0 in
    w ++ (circular_shift 1 (bit_xor (bit_xor (bit_xor (at 3) (at 8)) (at 14)) (at 16)) ∷ [])

abbrev choose : Words → ℕ
choose h = bit_or (bit_and h.b h.c) (bit_and (not_32 h.b) h.d)

abbrev parity : Words → ℕ
parity h = bit_xor (bit_xor h.b h.c) h.d

abbrev majority : Words → ℕ
majority h = bit_or (bit_or (bit_and h.b h.c) (bit_and h.b h.d)) (bit_and h.c h.d)

-- The body of each of the four loops.
unfoldable pub round : (Words → ℕ) → ℕ → ℕ → Words → Words
round f k word h = record {
  a = (circular_shift 5 h.a + f h + h.e + word + k) % 2 ^ 32;
  b = h.a;
  c = circular_shift 30 h.b;
  d = h.c;
  e = h.d;
}

-- The first `n` rounds of the loop that begins with t = first.
unfoldable pub rounds : (Words → ℕ) → ℕ → List ℕ → ℕ → ℕ → Words → Words
rounds f k words first zero h = h
rounds f k words first (suc n) h =
    round f k (get_or words (first + n) 0) (rounds f k words first n h)

abbrev add_32 : Words → Words → Words
add_32 h g = record {
  a = (h.a + g.a) % 2 ^ 32;
  b = (h.b + g.b) % 2 ^ 32;
  c = (h.c + g.c) % 2 ^ 32;
  d = (h.d + g.d) % 2 ^ 32;
  e = (h.e + g.e) % 2 ^ 32;
}

-- What _S_process_message_block makes of the hash and the block.
unfoldable pub compress : Words → Bytes → Words
compress h block =
    let w = schedule 64 (block_words block 16) in
    let h1 = rounds choose 0x5A827999 w 0 20 h in
    let h2 = rounds parity 0x6ED9EBA1 w 20 20 h1 in
    let h3 = rounds majority 0x8F1BBCDC w 40 20 h2 in add_32 h (rounds parity 0xCA62C1D6 w 60 20 h3)

unfoldable pub process_message_block : Context → Context
process_message_block context = record context {
  intermediate_hash = compress context.intermediate_hash context.message_block;
  message_block_index = 0;
}

-- message_block[message_block_index++] = byte
unfoldable pub store : ℕ → Context → Context
store byte context = record context {
  message_block = set_at context.message_block_index byte context.message_block;
  message_block_index = context.message_block_index + 1;
}

-- The message is too long when the high word wraps too.
unfoldable pub count_bits : Context → Context
count_bits context =
    let low = (context.length_low + 8) % 2 ^ 32 in
    let high = (context.length_high + 1) % 2 ^ 32 in
    if low == 0
    then record context {
      length_low = low;
      length_high = high;
      corrupted = if high == 0 then true else context.corrupted;
    }
    else record context { length_low = low }

-- The body of the loop of _S_input.
unfoldable pub input_byte : ℕ → Context → Context
input_byte byte context =
    let counted = count_bits (store (bit_and byte 0xFF) context) in
    if counted.message_block_index == 64 then process_message_block counted else counted

unfoldable pub input_loop : Bytes → Context → Context
input_loop [] context = context
input_loop (byte ∷ rest) context =
    if context.corrupted then context else input_loop rest (input_byte byte context)

-- _S_input of the first `count` bytes of an array.
unfoldable pub input : Bytes → ℕ → Context → Status × Context
input message count context =
    if count == 0
    then (success, context)
    else if context.corrupted
    then (nil, context)
    else if context.computed
    then (state_error, record context { corrupted = true })
    else (success, input_loop (take count message) context)

-- `count` rounds of message_block[message_block_index++] = 0
unfoldable pub store_zeros : ℕ → Context → Context
store_zeros zero context = context
store_zeros (suc count) context = store_zeros count (store 0 context)

-- while (message_block_index < limit)
abbrev pub fill : ℕ → Context → Context
fill limit context = store_zeros (limit - context.message_block_index) context

-- The body of the loop that stores the length, for one i.
unfoldable pub store_length_byte : ℕ → Context → Context
store_length_byte i context =
    let j = 24 - 8 * i in
    record context {
      message_block =
          set_at (60 + i) (context.length_low >> j % 256)
            (set_at (56 + i) (context.length_high >> j % 256) context.message_block);
    }

abbrev pub store_length : Context → Context
store_length context =
    store_length_byte 3 (store_length_byte 2 (store_length_byte 1 (store_length_byte 0 context)))

unfoldable pub pad_message : Context → Context
pad_message context =
    let marked = store 0x80 context in
    process_message_block (
      store_length (
        if ltb 55 context.message_block_index
        then fill 56 (process_message_block (fill 64 marked))
        else fill 56 marked))

-- message_digest[i], for the four bytes of a word
abbrev word_bytes : ℕ → Bytes
word_bytes x = x >> 24 % 256 ∷ x >> 16 % 256 ∷ x >> 8 % 256 ∷ x % 256 ∷ []

unfoldable pub digest_bytes : Words → Bytes
digest_bytes h =
    word_bytes h.a ++ (word_bytes h.b ++ (word_bytes h.c ++ (word_bytes h.d ++ word_bytes h.e)))

-- The first call of _S_result for a context pads the message and clears it.
unfoldable pub close_message : Context → Context
close_message context = if context.computed then context else record (pad_message context) {
  message_block = replicate 64 0;
  length_low = 0;
  length_high = 0;
  computed = true;
}

-- The context, and the digest where it is written.
unfoldable pub result : Context → Status × (Context × Option Bytes)
result context = if context.corrupted then (nil, (context, none)) else (
  success,
  (close_message context, some (digest_bytes (close_message context).intermediate_hash)),
)

-- `none` is the exception; the length is converted to `unsigned int`.
unfoldable pub digest : Context → Bytes → Option Bytes
digest context message =
    let (status, fed) = input message (length message % 2 ^ 32) (reset context) in
    elim status [ success ↦ (result fed).1.1 | _ ↦ none ]
