-- ===== src/Utf8/Serialize.antt =====
-- `serialize` on single symbols and on strings of each width.
use impact_socket_set.Base.{
  ℕ, ◌+◌, ◌^◌, ◌<◌, bit_and, true, false, if◌then◌else◌, Option, some, none, List, [], ◌∷◌, ◌++◌,
  Bytes, IsByte, All, all_of, length, length-append, map, ◌≡◌, refl, ap, ◌∙◌, arith, append-nil,
}
use mathlib.Core.Path.{ap₂}
use native.Mathlib.Nat.{mod-eq_of_lt}
use impact_socket_set.Base.Bits.{low_mask, bit_and_low, bit_and_comm}
use impact_socket_set.Errno.{Answer, success, utf8_badsym}
use impact_socket_set.Utf8.{
  push_all, serialize_char, total_size, encode_all, serialize_snippet, serialize_8, serialize_16,
  serialize_32,
}
use impact_socket_set.Utf8.Table.{is_scalar, utf8_of, encode-utf8_of, estimate_buf_size-length}

-- The text of a list of code points.
abbrev pub text_of : List ℕ → Bytes
text_of [] = []
text_of (c ∷ cs) = utf8_of c ++ text_of cs

-- What every overload answers on the code points `cs`: the text is added if all are scalar
-- values, and otherwise the output is left alone.
abbrev pub outcome : List ℕ → Option Bytes → Answer (Option Bytes)
outcome cs result =
    if all_of is_scalar cs
    then record { accepted = true; errno = success; out = push_all result (text_of cs) }
    else record { accepted = false; errno = utf8_badsym; out = result }

-- A single symbol is accepted exactly if it is a scalar value; then its UTF-8 text is added to
-- the output, and otherwise the output is left alone.
pub serialize_char-outcome :
    (c : ℕ) (result : Option Bytes) → serialize_char c result ≡ outcome (c ∷ []) result
unfolding serialize_char
serialize_char-outcome c result = ground (arith, append-nil (utf8_of c), encode-utf8_of c)

scalar_lt : (c : ℕ) → is_scalar c ≡ true → c < 0x110000
scalar_lt c h = ground arith

module _ (mask : ℕ) where
  masked : List ℕ → List ℕ
  masked = map (bit_and mask)

  -- The size that is reserved is the number of bytes that follow.
  total_size-length :
      (cs : List ℕ) (size : ℕ)
      → total_size mask cs size ≡ (
          if all_of is_scalar (masked cs) then some (size + length (text_of (masked cs))) else none)
  unfolding total_size masked
  total_size-length [] size = ground arith
  total_size-length (c ∷ cs) size = ground (
    arith,
    estimate_buf_size-length (bit_and mask c),
    length-append (utf8_of (bit_and mask c)) (text_of (map (bit_and mask) cs)),
    total_size-length cs (size + length (utf8_of (bit_and mask c))),
  )

  encode_all-text_of :
      (cs : List ℕ) → all_of is_scalar (masked cs) ≡ true → encode_all mask cs ≡ text_of (masked cs)
  unfolding encode_all masked
  encode_all-text_of [] h = refl
  encode_all-text_of (c ∷ cs) h =
      ground (arith, encode-utf8_of (bit_and mask c), encode_all-text_of cs)

  serialize_snippet-outcome :
      (cs : List ℕ) (result : Option Bytes)
      → serialize_snippet mask cs result ≡ outcome (masked cs) result
  unfolding serialize_snippet
  serialize_snippet-outcome cs result =
      ground (arith, total_size-length cs 0, encode_all-text_of cs)

  masked_id : (w : ℕ) (cs : List ℕ) → mask ≡ low_mask w → All (λ c. c < 2 ^ w) cs → masked cs ≡ cs
  unfolding masked
  masked_id w [] e h = refl
  masked_id w (c ∷ cs) e (hc, h) =
      ap₂ ◌∷◌ (rw (e, bit_and_comm (low_mask w) c, bit_and_low w c) (mod-eq_of_lt hc))
        (masked_id w cs e h)

-- Below U+D800 everything is a scalar value.
latin_scalar : (cs : List ℕ) → All IsByte cs → all_of is_scalar cs ≡ true
latin_scalar [] h = refl
latin_scalar (c ∷ cs) (hc, h) = ground (arith, latin_scalar cs h)

pub serialize_32-outcome :
    (cs : List ℕ) (result : Option Bytes)
    → All (λ c. c < 2 ^ 32) cs
    → serialize_32 cs result ≡ outcome cs result
serialize_32-outcome cs result h =
    serialize_snippet-outcome 0xFFFFFFFF cs result
    ∙ ap (λ cs. outcome cs result) (masked_id 0xFFFFFFFF 32 cs refl h)

-- Each string overload takes its code units for code points: a `std::u32string` and a
-- `std::u16string` are accepted exactly if all units are scalar values, so a surrogate pair is
-- rejected; the bytes of a `std::string` are taken for Latin-1, and always accepted. On
-- acceptance the UTF-8 text is added to the output, on rejection the output is left alone.
pub serialize_outcome :
    (bytes units points : List ℕ) (result : Option Bytes)
    → All IsByte bytes
    → All (λ c. c < 2 ^ 16) units
    → All (λ c. c < 2 ^ 32) points
    → (serialize_8 bytes result
        ≡ record { accepted = true; errno = success; out = push_all result (text_of bytes) })
      × (serialize_16 units result ≡ outcome units result)
      × (serialize_32 points result ≡ outcome points result)
serialize_outcome bytes units points result h8 h16 h32 = (
  serialize_snippet-outcome 0xFF bytes result
      ∙ rw (masked_id 0xFF 8 bytes refl h8, latin_scalar bytes h8),
  serialize_snippet-outcome 0xFFFF units result
      ∙ ap (λ cs. outcome cs result) (masked_id 0xFFFF 16 units refl h16),
  serialize_32-outcome points result h32,
)
