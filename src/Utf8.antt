-- ===== src/Utf8.antt =====
-- Include/rfc/utf8.h and Source/rfc/utf8.cpp: UTF-8 (RFC 3629).
-- A wide string is a list of code units, and the output argument is `none` for a null pointer.
-- A byte is a number below 256: every operation on a `char` of the source masks its low bits,
-- so the sign of `char` does not matter.
pub mod Table
pub mod Serialize
pub mod Steps
pub mod Deserialize
pub mod Groups
pub mod Trailing
pub mod Verdict
mod Tests
use impact_socket_set.Base.{
  ℕ, ◌+◌, ◌-◌, ◌%◌, ◌^◌, bit_and, bit_or, Bool, true, false, ◌&&◌, ◌||◌, ltb, leb, ◌==◌, within,
  if◌then◌else◌, Option, none, some, List, [], ◌∷◌, ◌++◌, Bytes,
}
use impact_socket_set.Base.Bits.{◌<<◌, ◌>>◌}
use impact_socket_set.Errno.{Answer, ImpErr, success, utf8_badsym, utf8_badhead, utf8_badtrail}

-- `none` is the result `static_cast<size_t>(-1)`.
pub estimate_buf_size : ℕ → Option ℕ
estimate_buf_size symbol =
    if leb symbol 0x00007F
    then some 1
    else if leb symbol 0x0007FF
    then some 2
    else if leb symbol 0x00FFFF
    then (if within 0x00D800 0x00DFFF symbol then none else some 3)
    else if leb symbol 0x10FFFF
    then some 4
    else none

-- static_cast<char>(x), as the byte that is stored
abbrev pub to_char : ℕ → ℕ
to_char x = x % 2 ^ 8

abbrev tail_a : ℕ → Bytes
tail_a symbol = to_char (bit_or 0x80 (bit_and symbol 0x3F)) ∷ []

abbrev tail_b : ℕ → Bytes
tail_b symbol = to_char (bit_or 0x80 (bit_and (symbol >> 6) 0x3F)) ∷ tail_a symbol

-- The bytes that `_S_encode` pushes back.
pub encode : ℕ → Bytes
encode symbol =
    if leb symbol 0x00007F
    then to_char symbol ∷ []
    else if leb symbol 0x0007FF
    then to_char (bit_or 0xC0 (symbol >> 6)) ∷ tail_a symbol
    else if leb symbol 0x00FFFF
    then to_char (bit_or 0xE0 (symbol >> 12)) ∷ tail_b symbol
    else to_char (bit_or 0xF0 (symbol >> 18))
      ∷ to_char (bit_or 0x80 (bit_and (symbol >> 12) 0x3F))
      ∷ tail_b symbol

-- `result` with `bytes` pushed back, for a pointer that may be null.
abbrev pub push_all {ℓ} : {A : Type ℓ} → Option (List A) → List A → Option (List A)
push_all none items = none
push_all (some old) items = some (old ++ items)

pub serialize_char : ℕ → Option Bytes → Answer (Option Bytes)
serialize_char input result =
    if ltb 0x0010FFFF input || (leb 0x0000D800 input && leb input 0x0000DFFF)
    then record { accepted = false; errno = utf8_badsym; out = result }
    else record { accepted = true; errno = success; out = push_all result (encode input) }

-- The first loop of the macro: the size to reserve, or `none` at a bad symbol.
pub total_size : ℕ → List ℕ → ℕ → Option ℕ
total_size mask [] size = some size
total_size mask (c ∷ rest) size = elim (estimate_buf_size (bit_and mask c)) [
  | none ↦ none
  | some test ↦ total_size mask rest (size + test)
]

-- The second loop.
pub encode_all : ℕ → List ℕ → Bytes
encode_all mask [] = []
encode_all mask (symbol ∷ rest) = encode (bit_and mask symbol) ++ encode_all mask rest

-- SERIALIZE_STRING_CODE_SNIPPET(mask); `reserve` changes no contents.
pub serialize_snippet : ℕ → List ℕ → Option Bytes → Answer (Option Bytes)
serialize_snippet mask input result = elim (total_size mask input 0) [
  | none ↦ record { accepted = false; errno = utf8_badsym; out = result }
  | some size ↦ record {
    accepted = true;
    errno = success;
    out = push_all result (encode_all mask input);
  }
]

-- The overloads for `std::string`, `std::u16string` and `std::u32string`.
abbrev pub serialize_8 : Bytes → Option Bytes → Answer (Option Bytes)
serialize_8 = serialize_snippet 0x000000FF

abbrev pub serialize_16 : List ℕ → Option Bytes → Answer (Option Bytes)
serialize_16 = serialize_snippet 0x0000FFFF

abbrev pub serialize_32 : List ℕ → Option Bytes → Answer (Option Bytes)
serialize_32 = serialize_snippet 0xFFFFFFFF

-- The variables of `deserialize`. `symbol` has no first value in the source: it is written by a
-- header before a trailer reads it.
pub record Reader : Type 0 where
  pub state : ℕ
  pub symbol : ℕ
  pub result : Option (List ℕ)

-- `state` as set by a header of several bytes; 0 for none.
abbrev header_state : ℕ → ℕ
header_state c =
    if bit_and c 0xE0 == 0xC0
    then 1
    else if bit_and c 0xF0 == 0xE0
    then 2
    else if bit_and c 0xF8 == 0xF0
    then 3
    else 0

-- One round of the loop, by `case 0` and `default`; the error is the value left in `imp_errno`.
pub data Round : Type 0 where
  next : Reader → Round
  stop : ImpErr → Round

pub header : Reader → ℕ → Round
header r c =
    let state = header_state c in
    if bit_and c 0x80 == 0x00
    then next (record r { symbol = c; result = push_all r.result (c ∷ []) })
    else if state == 0
    then stop utf8_badhead
    else next (record r { state = state; symbol = bit_and (0x3F >> state) c })

pub trailer : Reader → ℕ → Round
trailer r c =
    let symbol = bit_or (r.symbol << 6 % 2 ^ 32) (bit_and 0x3F c) in
    let result = if r.state - 1 == 0 then push_all r.result (symbol ∷ []) else r.result in
    if bit_and c 0xC0 == 0x80
    then next (record { state = r.state - 1; symbol = symbol; result = result })
    else stop utf8_badtrail

pub step : Reader → ℕ → Round
unfolding header trailer
step r c = if r.state == 0 then header r c else trailer r c

-- An error leaves what was pushed back before it.
pub read : Bytes → Reader → Answer (Option (List ℕ))
read [] r = record { accepted = true; errno = success; out = r.result }
read (c ∷ rest) r = elim (step r c) [
  | next r' ↦ read rest r'
  | stop e ↦ record { accepted = false; errno = e; out = r.result }
]

pub deserialize : Bytes → Option (List ℕ) → Answer (Option (List ℕ))
deserialize input result = read input (record { state = 0; symbol = 0; result = result })
