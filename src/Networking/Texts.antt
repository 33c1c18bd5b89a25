-- ===== src/Networking/Texts.antt =====
-- Source/networking.cpp: sockaddr_to_string on Linux. inet_ntop is a parameter: the text that it
-- writes, without the NUL behind it, or none. Where it fails the text is put together by hand; an
-- IPv4 address is then read as a number in the byte order of the machine, `little` endian or not.
mod Tests
use impact_socket_set.Base.{
  ℕ, ◌+◌, ◌-◌, ◌/◌, ◌%◌, Bool, ltb, ◌==◌, if◌then◌else◌, Option, none, some, [], ◌∷◌, ◌++◌, Bytes,
  length, get_or, drop, take, replicate,
}
use impact_socket_set.Base.Int.{pos}
use impact_socket_set.Uri.Chars.{codes}
use impact_socket_set.Uri.Print.{to_string}
use impact_socket_set.Networking.Interfaces.{Address}

-- std::hex with std::setw(2) and std::setfill('0')
abbrev pub hex_char : ℕ → ℕ
hex_char d = if ltb d 10 then 0x30 + d else 0x57 + d

unfoldable pub hex_byte : ℕ → Bytes
hex_byte b = hex_char (b / 16) ∷ hex_char (b % 16) ∷ []

-- The loop over the pairs of bytes; no colon follows the last.
unfoldable pub hex_groups : Bytes → Bytes
hex_groups (a ∷ b ∷ []) = hex_byte a ++ hex_byte b
hex_groups (a ∷ b ∷ rest) = hex_byte a ++ (hex_byte b ++ (0x3A ∷ hex_groups rest))
hex_groups _ = []

-- (int)(0xFF & (s_addr >> 24)) and the three others
unfoldable pub dotted : Bool → Bytes → Bytes
dotted little bytes =
    let octet : ℕ → Bytes = λ i. to_string (pos (get_or bytes (if little then 3 - i else i) 0)) in
    octet 0 ++ (0x2E ∷ octet 1 ++ (0x2E ∷ octet 2 ++ (0x2E ∷ octet 3)))

-- A text in a string that was resized for it: what the text does not fill stays NUL.
abbrev pub resized : ℕ → Bytes → Bytes
resized size text = text ++ replicate (size - length text) 0

abbrev pub or_by_hand : ℕ → Bytes → Option Bytes → Bytes
or_by_hand size by_hand none = by_hand
or_by_hand size by_hand (some text) = resized size text

module _ (inet inet6 : ℕ) (inet_ntop : ℕ → Bytes → ℕ → Option Bytes) (little : Bool) where
  unfoldable pub sockaddr_to_string : Option Address → Bytes
  sockaddr_to_string none = codes "[no address]"
  sockaddr_to_string (some address) =
      let in_addr = take 4 (drop 4 address.bytes) in
      let in6_addr = take 16 (drop 8 address.bytes) in
      if address.family == inet
      then or_by_hand 16 (dotted little in_addr) (inet_ntop inet in_addr 16)
      else if address.family == inet6
      then or_by_hand 46 (hex_groups in6_addr) (inet_ntop inet6 in6_addr 28)
      else codes "[unrecognized address family]"
