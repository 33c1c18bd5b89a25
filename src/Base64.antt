-- ===== src/Base64.antt =====
-- Source/rfc/base64.cpp: encoding and decoding of bytes in base 64 (RFC 4648).
-- A stream is the list of bytes written to it, and the output argument is `none` for a null pointer.
-- `return ""` in the source converts a non-null pointer to `true`, so an empty input is accepted
-- with the output left as it was.
pub mod Text
pub mod Encode
pub mod Decode
pub mod RoundTrip
mod Tests
use Prim.Native.Char.{code}
use Prim.Native.String.{String}
use impact_socket_set.Base.{
  ℕ, zero, suc, ◌+◌, ◌-◌, ◌*◌, ◌%◌, ◌^◌, bit_and, bit_or, Bool, true, false, ◌&&◌, leb, ◌==◌,
  within, if◌then◌else◌, Option, none, some, List, [], ◌∷◌, ◌++◌, Bytes, length, get_or, replicate,
}
use impact_socket_set.Base.Bits.{◌<<◌, ◌>>◌}
use impact_socket_set.Errno.{Answer, success, b64_badsym, b64_badpad}

abbrev codes : String → Bytes
codes String.[] = []
codes (String.◌∷◌ c s) = code c ∷ codes s

k_alphabet : Bytes
k_alphabet = codes "ABCDEFGHIJKLMNOPQRSTUVWXYZabcdefghijklmnopqrstuvwxyz0123456789+/"

abbrev pub k_pad : ℕ
k_pad = b'='

abbrev pub k_symbol_size : ℕ
k_symbol_size = 6

abbrev pub k_symbol : ℕ
k_symbol = 0x3F

abbrev pub k_byte : ℕ
k_byte = 0xFF

-- k_alphabet[i]
pub alphabet : ℕ → ℕ
unfolding k_alphabet
alphabet i = get_or k_alphabet i 0

-- `*result = bytes` for a pointer that may be null.
abbrev pub store : Option Bytes → Bytes → Option Bytes
store none bytes = none
store (some old) bytes = some bytes

-- for (j = 3; j >= 0; j--) { reg16[j] = reg24 & k_symbol; reg24 >>= k_symbol_size; }
-- The number counts the rounds left; the list is what the later places of `reg16` hold.
abbrev pub fill_symbols : ℕ → ℕ → List ℕ → List ℕ
fill_symbols zero reg24 reg16 = reg16
fill_symbols (suc j) reg24 reg16 =
    fill_symbols j (reg24 >> k_symbol_size) (bit_and reg24 k_symbol ∷ reg16)

-- The same with the shift first: { reg24 >>= k_symbol_size; reg16[i] = reg24 & k_symbol; }
abbrev pub shift_symbols : ℕ → ℕ → List ℕ → List ℕ
shift_symbols zero reg24 reg16 = reg16
shift_symbols (suc i) reg24 reg16 =
    let r = reg24 >> k_symbol_size in shift_symbols i r (bit_and r k_symbol ∷ reg16)

-- for (...) *stream << k_alphabet[reg16[j]];
abbrev pub write_symbols : Bytes → List ℕ → Bytes
write_symbols stream [] = stream
write_symbols stream (s ∷ ss) = write_symbols (stream ++ (alphabet s ∷ [])) ss

-- The list is what the index `i` of the loop has not passed; the loop stops at fewer than three.
pub run_encode : Bytes → Bytes → Bytes
run_encode (a ∷ b ∷ c ∷ rest) stream =
    let reg24 = bit_or (bit_or (bit_and 0xFF a << 16) (bit_and 0xFF b << 8)) (bit_and 0xFF c) in
    run_encode rest (write_symbols stream (fill_symbols 4 reg24 []))
run_encode _ stream = stream

abbrev pub pad_count : Bytes → ℕ
pad_count bytes = (length bytes % 3 + (length bytes + 1) % 3) - 1

-- The body of the `if (pad_count != 0)`, on the two bytes that it may read.
pub pad_bytes : ℕ → ℕ → ℕ → Bytes → Bytes
pad_bytes pad x y stream =
    let first = bit_and 0xFF x << 16 in
    let reg24 = if pad == 1 then bit_or first (bit_and 0xFF y << 8) else first >> k_symbol_size in
    if pad == 0
    then stream
    else write_symbols stream (shift_symbols (4 - pad) reg24 []) ++ replicate pad k_pad

-- The index `length - 3 + pad_count` of the source wraps below 0 and back.
pub pad_stream : Bytes → Bytes → Bytes
pad_stream bytes =
    let pad = pad_count bytes in
    pad_bytes pad (get_or bytes (length bytes + pad - 3) 0) (get_or bytes (length bytes - 1) 0)

pub encode : Bytes → Option Bytes → Answer (Option Bytes)
encode bytes result =
    let text = pad_stream bytes (run_encode bytes []) in
    if length bytes == 0
    then record { accepted = true; errno = success; out = result }
    else record { accepted = true; errno = success; out = store result text }

pub reverse_lookup : ℕ → ℕ
reverse_lookup c =
    if within b'A' b'Z' c
    then c - b'A'
    else if within b'a' b'z' c
    then c - b'a' + 26
    else if within b'0' b'9' c
    then c - b'0' + 52
    else if c == b'+'
    then 0x3E
    else if c == b'/'
    then 0x3F
    else 0x40

-- What the two decoding loops share through pointers.
pub record Decoder : Type 0 where
  pub stream : Bytes
  pub padding : ℕ
  pub tally : ℕ
  pub reg24 : ℕ

abbrev pub fresh : Decoder
fresh = record { stream = []; padding = 0; tally = 0; reg24 = 0 }

-- A symbol of the alphabet is taken into the register; the fourth writes three bytes.
pub push_symbol : Decoder → ℕ → Decoder
push_symbol d c =
    let r = bit_or d.reg24 c in
    if d.tally + 1 == 4
    then record d {
      stream = d.stream ++ ((r >> 16 % 2 ^ 8) ∷ bit_and (r >> 8) k_byte ∷ bit_and r k_byte ∷ []);
      tally = 0;
      reg24 = 0;
    }
    else record d { tally = d.tally + 1; reg24 = r << k_symbol_size % 2 ^ 32 }

-- `none` is the return with B64_BADSYM. `length - i` is the length of what is left.
pub run_decode : Bytes → Decoder → Option Decoder
run_decode [] d = some d
run_decode (c ∷ rest) d =
    let padded = run_decode rest (record d { padding = d.padding + 1 }) in
    let skipped = run_decode rest d in
    let pushed = run_decode rest (push_symbol d (reverse_lookup c)) in
    if c == b'='
    then (if leb (length (c ∷ rest)) 2 then padded else skipped)
    else if reverse_lookup c == 0x40
    then none
    else pushed

-- `none` is the return with B64_BADPAD.
pub unpad_stream : Decoder → Option Bytes
unpad_stream d =
    let r = d.reg24 << (k_symbol_size * (d.padding - 1)) % 2 ^ 32 in
    let first = d.stream ++ ((r >> 16 % 2 ^ 8) ∷ []) in
    if d.padding + d.tally == 4
    then some (if d.padding == 2 then first else first ++ (bit_and (r >> 8) k_byte ∷ []))
    else if d.padding + d.tally == 0
    then some d.stream
    else none

decode_symbols : Option Decoder → Option Bytes → Answer (Option Bytes)
decode_symbols none result = record { accepted = false; errno = b64_badsym; out = result }
decode_symbols (some d) result = elim (unpad_stream d) [
  | none ↦ record { accepted = false; errno = b64_badpad; out = result }
  | some bytes ↦ record { accepted = true; errno = success; out = store result bytes }
]

pub decode : Bytes → Option Bytes → Answer (Option Bytes)
unfolding decode_symbols
decode text result =
    if length text == 0
    then record { accepted = true; errno = success; out = result }
    else decode_symbols (run_decode text fresh) result
