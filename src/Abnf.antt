-- ===== src/Abnf.antt =====
-- Include/utils/abnf_ops.h: the character classes of RFC 5234.
-- A `char` is a byte. Its order depends on the platform: the flag says whether `char` is signed.
pub mod Sign
mod Tests
use impact_socket_set.Base.{ℕ, ◌+◌, ◌%◌, Bool, ◌&&◌, ◌||◌, ltb, leb, ◌==◌, if◌then◌else◌}

-- The place of a byte in the order of `char`: the bytes from 0x80 on are negative if it is signed.
abbrev pub place : Bool → ℕ → ℕ
place signed c = if signed then (c + 128) % 256 else c

module _ (signed : Bool) where
  abbrev pub char_le : ℕ → ℕ → Bool
  char_le a b = leb (place signed a) (place signed b)

  abbrev pub char_lt : ℕ → ℕ → Bool
  char_lt a b = ltb (place signed a) (place signed b)

  unfoldable pub alpha : ℕ → Bool
  alpha c = char_le 0x41 c && char_le c 0x5A || char_le 0x61 c && char_le c 0x7A

  unfoldable pub digit : ℕ → Bool
  digit c = char_le 0x30 c && char_le c 0x39

  unfoldable pub hexdig : ℕ → Bool
  unfolding digit
  hexdig c = digit c || char_le b'A' c && char_le c b'F' || char_le b'a' c && char_le c b'f'

  pub char : ℕ → Bool
  char c = char_le 0x01 c && (c == 0x7F || char_lt c 0x7F)

  pub ctl : ℕ → Bool
  ctl c = c == 0x7F || c == 0x00 || char_lt 0x00 c && char_le c 0x1F

  pub octet : ℕ → Bool
  octet c = char_lt 0x00 c && char_lt c 0xFF || c == 0x00 || c == 0xFF

  pub vchar : ℕ → Bool
  vchar c = char_le 0x21 c && char_le c 0x7E

pub bit : ℕ → Bool
bit c = c == b'0' || c == b'1'

pub lf : ℕ → Bool
lf c = c == 0x0A

pub cr : ℕ → Bool
cr c = c == 0x0D

pub crlf : ℕ → ℕ → Bool
unfolding cr lf
crlf a b = cr a && lf b

pub dquote : ℕ → Bool
dquote c = c == 0x22

pub htab : ℕ → Bool
htab c = c == 0x09

pub sp : ℕ → Bool
sp c = c == 0x20

pub wsp : ℕ → Bool
unfolding sp htab
wsp c = sp c || htab c
