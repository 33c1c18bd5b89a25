-- ===== src/Networking/Readback.antt =====
-- Source/networking.cpp: what can be read back from the text of sockaddr_to_string.
use impact_socket_set.Base.{
  ℕ, ◌+◌, ◌-◌, ◌*◌, ◌/◌, ◌%◌, ◌<◌, Bool, true, ltb, ◌==◌, ◌&&◌, not, if◌then◌else◌, Option, none,
  some, [], ◌∷◌, ◌++◌, Bytes, IsByte, All, length, drop, take, replicate, length-append,
  length-replicate, ◌≡◌, ◌≢◌, refl, ap, ◌∙◌, arith,
}
use impact_socket_set.Base.Table.{holds_below, holds_below-at}
use impact_socket_set.Networking.Interfaces.{Address}
use impact_socket_set.Networking.Texts.{hex_char, hex_byte, hex_groups, resized, sockaddr_to_string}

abbrev pub hex_value : ℕ → ℕ
hex_value c = if ltb c 0x3A then c - 0x30 else c - 0x57

unfoldable pub without_colons : Bytes → Bytes
without_colons [] = []
without_colons (c ∷ rest) = if c == 0x3A then without_colons rest else c ∷ without_colons rest

unfoldable pub read_bytes : Bytes → Bytes
read_bytes (x ∷ y ∷ rest) = (16 * hex_value x + hex_value y) ∷ read_bytes rest
read_bytes _ = []

digit_right : ℕ → Bool
digit_right d = hex_value (hex_char d) == d && not (hex_char d == 0x3A)

digits_right : holds_below digit_right 16 ≡ true
unfolding holds_below digit_right
digits_right = refl

without_colons-hex_byte :
    (b : ℕ) (rest : Bytes)
    → IsByte b
    → without_colons (hex_byte b ++ rest) ≡ hex_byte b ++ without_colons rest
unfolding without_colons hex_byte digit_right
without_colons-hex_byte b rest byte = ground (
  arith,
  holds_below-at digit_right 16 digits_right (b / 16) (omega (arith, byte)),
  holds_below-at digit_right 16 digits_right (b % 16) (omega arith),
)

read_bytes-hex_byte :
    (b : ℕ) (rest : Bytes) → IsByte b → read_bytes (hex_byte b ++ rest) ≡ b ∷ read_bytes rest
unfolding read_bytes hex_byte digit_right
read_bytes-hex_byte b rest byte = ground (
  arith,
  holds_below-at digit_right 16 digits_right (b / 16) (omega (arith, byte)),
  holds_below-at digit_right 16 digits_right (b % 16) (omega arith),
)

read_pair :
    (a b : ℕ) (rest : Bytes)
    → IsByte a
    → IsByte b
    → read_bytes (without_colons (hex_byte a ++ (hex_byte b ++ rest)))
      ≡ a ∷ b ∷ read_bytes (without_colons rest)
read_pair a b rest ha hb =
    ap read_bytes (
      without_colons-hex_byte a (hex_byte b ++ rest) ha
      ∙ ap (λ t. hex_byte a ++ t) (without_colons-hex_byte b rest hb))
    ∙ read_bytes-hex_byte a (hex_byte b ++ without_colons rest) ha
    ∙ ap (◌∷◌ a) (read_bytes-hex_byte b (without_colons rest) hb)

read_bytes-hex_groups :
    (bs : Bytes)
    → All IsByte bs
    → length bs % 2 ≡ 0
    → read_bytes (without_colons (hex_groups bs)) ≡ bs
unfolding read_bytes without_colons hex_groups hex_byte
read_bytes-hex_groups [] bytes even = refl
read_bytes-hex_groups (a ∷ []) bytes even = absurd (omega (arith, even))
read_bytes-hex_groups (a ∷ b ∷ []) (ha, (hb, _)) even = read_pair a b [] ha hb
read_bytes-hex_groups (a ∷ b ∷ c ∷ rest) (ha, (hb, more)) even =
    read_pair a b (0x3A ∷ hex_groups (c ∷ rest)) ha hb
    ∙ ap (λ t. a ∷ b ∷ t) (read_bytes-hex_groups (c ∷ rest) more (omega (arith, even)))

-- Where inet_ntop fails on an IPv6 address, the text is the address: its hexadecimal digits, taken in
-- pairs without the colons, are the sixteen bytes.
pub sockaddr_to_string_readback :
    (inet inet6 : ℕ) (inet_ntop : ℕ → Bytes → ℕ → Option Bytes) (little : Bool) (address : Address)
    → address.family ≡ inet6
    → inet ≢ inet6
    → length (take 16 (drop 8 address.bytes)) ≡ 16
    → All IsByte (take 16 (drop 8 address.bytes))
    → inet_ntop inet6 (take 16 (drop 8 address.bytes)) 28 ≡ none
    → read_bytes (without_colons (sockaddr_to_string inet inet6 inet_ntop little (some address)))
      ≡ take 16 (drop 8 address.bytes)
unfolding sockaddr_to_string
sockaddr_to_string_readback inet inet6 inet_ntop little address is6 differ size bytes fails =
    let groups : sockaddr_to_string inet inet6 inet_ntop little (some address)
        ≡ hex_groups (take 16 (drop 8 address.bytes)) =
      ground (arith, is6, differ, fails) in
    ap (λ t. read_bytes (without_colons t)) groups
    ∙ read_bytes-hex_groups (take 16 (drop 8 address.bytes)) bytes (omega (arith, size))

-- Where inet_ntop writes a text of fewer than 28 characters for an IPv6 address, the string has the 46
-- characters that it was resized to, and so is not that text.
pub sockaddr_to_string_padded :
    (inet inet6 : ℕ) (inet_ntop : ℕ → Bytes → ℕ → Option Bytes) (little : Bool) (address : Address)
    (text : Bytes)
    → inet ≢ inet6
    → address.family ≡ inet6
    → inet_ntop inet6 (take 16 (drop 8 address.bytes)) 28 ≡ some text
    → length text < 28
    → (length (sockaddr_to_string inet inet6 inet_ntop little (some address)) ≡ 46)
      × (sockaddr_to_string inet inet6 inet_ntop little (some address) ≢ text)
unfolding sockaddr_to_string
sockaddr_to_string_padded inet inet6 inet_ntop little address text differ is6 writes short =
    let padded : sockaddr_to_string inet inet6 inet_ntop little (some address) ≡ resized 46 text =
      ground (arith, is6, differ, writes) in
    let size : length (resized 46 text) ≡ 46 = omega (
      arith,
      short,
      length-append text (replicate (46 - length text) 0),
      length-replicate (46 - length text) 0,
    ) in
    let all : length (sockaddr_to_string inet inet6 inet_ntop little (some address)) ≡ 46 =
      ap length padded ∙ size in
    (all, λ e. omega (arith, all, ap length e, short))
