-- ===== src/Uri/Percent.antt =====
-- The two `_S_percent_decode` of uri.cpp.
pub mod Errors
pub mod Decoded
pub mod Twice
pub mod Raw
use impact_socket_set.Base.{
  ℕ, zero, suc, ◌+◌, ◌-◌, ◌%◌, ◌^◌, bit_or, Bool, true, false, ◌&&◌, ◌||◌, ◌==◌, within,
  if◌then◌else◌, [], ◌∷◌, ◌++◌, Bytes, Option, none, some,
}
use impact_socket_set.Base.Bits.{◌<<◌}
use impact_socket_set.Errno.{ImpErr, Answer, success, uri_port_sym}
use impact_socket_set.Uri.Chars.{is_hexdig, reserved, tolower, toupper, is_space}

-- What is or-ed into `char n`: an `int`, of which the eight low bits count.
abbrev pub nibble_value : ℕ → ℕ
nibble_value c = (if within b'0' b'9' c then c - b'0' else c + 2 ^ 8 - b'A' + 10) % 2 ^ 8

-- for (i = 0; i < 2; i++) { n <<= 4; … n |= …; }
unfoldable pub pair_value : ℕ → ℕ → ℕ
pair_value hi lo = bit_or (bit_or 0 (nibble_value hi) << 4 % 2 ^ 8) (nibble_value lo)

-- The variable `state` of both loops, 0, 1 or 2, with `nibble[0]`.
pub data Mode : Type 0 where
  plain : Mode
  percent : Mode
  nibble : ℕ → Mode

-- `_S_percent_decode(const std::string&)`: no check, every pair of characters behind a '%' is
-- taken, and a pair that the text does not complete is dropped.
unfoldable pub raw_loop : Mode → Bytes → Bytes
raw_loop mode [] = []
raw_loop plain (c ∷ rest) = elim (c == b'%') [
  | true ↦ raw_loop percent rest
  | false ↦ c ∷ raw_loop plain rest
]
raw_loop percent (c ∷ rest) = raw_loop (nibble c) rest
raw_loop (nibble hi) (c ∷ rest) = pair_value hi c ∷ raw_loop plain rest

unfoldable pub raw_decode : Bytes → Bytes
raw_decode = raw_loop plain

-- What a completed pair writes: a reserved character and '%' stay encoded.
unfoldable pub pair_output : ℕ → ℕ → Bytes
pair_output hi lo =
    let n = pair_value hi lo in if reserved n || n == b'%' then b'%' ∷ hi ∷ lo ∷ [] else n ∷ []

-- One character of `_S_percent_decode(std::string*, bool)`: the next state and what is written,
-- or `none` for the return of false.
unfoldable pub decode_step : Bool → Mode → ℕ → Option (Mode × Bytes)
decode_step lower plain c =
    if c == b'%' then some (percent, []) else some (plain, (if lower then tolower c else c) ∷ [])
decode_step lower percent c = if is_hexdig c then some (nibble (toupper c), []) else none
decode_step lower (nibble hi) c =
    if is_hexdig c then some (plain, pair_output hi (toupper c)) else none

-- The loop on what the input stream still holds; `stream >> c` skips white space.
unfoldable pub decode_loop : Bool → Mode → Bytes → Bytes → Option Bytes
decode_loop lower plain [] os = some os
decode_loop lower percent [] os = none
decode_loop lower (nibble hi) [] os = none
decode_loop lower mode (c ∷ rest) os = elim (is_space c) [
  | true ↦ decode_loop lower mode rest os
  | false ↦ elim (decode_step lower mode c) [
    | none ↦ none
    | some (mode', bytes) ↦ decode_loop lower mode' rest (os ++ bytes)
  ]
]

-- The end of the call: the string is written only on success.
abbrev pub settle : Bytes → Option Bytes → Answer Bytes
settle text none = record { accepted = false; errno = uri_port_sym; out = text }
settle text (some os) = record { accepted = true; errno = success; out = os }

-- On the string in place, with the value that `imp_errno` has before the call. URI_PERCENTENC,
-- which the source writes first, is overwritten on every path.
unfoldable pub percent_decode : Bytes → Bool → ImpErr → Answer Bytes
percent_decode [] lower errno = record { accepted = true; errno = errno; out = [] }
percent_decode (c ∷ rest) lower errno = settle (c ∷ rest) (decode_loop lower plain (c ∷ rest) [])
