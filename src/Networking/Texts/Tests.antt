-- ===== src/Networking/Texts/Tests.antt =====
-- Masks and texts of addresses that are written out.
use impact_socket_set.Base.{
  ℕ, zero, suc, ◌+◌, ◌-◌, ◌%◌, ◌^◌, ◌<◌, true, false, none, some, [], ◌∷◌, get_or, replicate, ◌≡◌,
  refl, arith, All, IsByte,
}
use impact_socket_set.Uri.Chars.{codes}
use impact_socket_set.Networking.Masks.{ipv6_mask, ipv6_broadcast, kept_bits, ipv6_broadcast_bits}
use impact_socket_set.Networking.Interfaces.{Address}
use impact_socket_set.Networking.Texts.{sockaddr_to_string, dotted}
use impact_socket_set.Networking.Readback.{without_colons, read_bytes, sockaddr_to_string_readback}

same_bytes : (count byte : ℕ) → byte < 256 → All IsByte (replicate count byte)
same_bytes zero byte small = tt
same_bytes (suc count) byte small = (small, same_bytes count byte small)

ipv6_broadcast_bits_example :
    (get_or (ipv6_mask 61) 7 0 ≡ 256 - 2 ^ (8 - kept_bits 61 7))
    × (get_or (ipv6_broadcast 61 (replicate 16 0xA5)) 7 0
        ≡ 0xA5 - 0xA5 % 2 ^ (8 - kept_bits 61 7) + 2 ^ (8 - kept_bits 61 7) - 1)
ipv6_broadcast_bits_example =
    ipv6_broadcast_bits 61 7 (replicate 16 0xA5) (omega arith) (omega arith) refl
      (same_bytes 16 0xA5 (omega arith))

abbrev local6 : Address
local6 = record { family = 10; bytes = replicate 28 0xFE }

sockaddr_to_string_readback_example :
    read_bytes
      (without_colons (sockaddr_to_string 2 10 (λ family bytes size. none) true (some local6)))
    ≡ replicate 16 0xFE
sockaddr_to_string_readback_example =
    sockaddr_to_string_readback 2 10 (λ family bytes size. none) true local6 refl (omega arith) refl
      (same_bytes 16 0xFE (omega arith)) refl

-- Put together by hand on a little-endian machine, an IPv4 address is written backwards.
dotted_little :
    (dotted true (127 ∷ 0 ∷ 0 ∷ 1 ∷ []) ≡ codes "1.0.0.127")
    × (dotted false (127 ∷ 0 ∷ 0 ∷ 1 ∷ []) ≡ codes "127.0.0.1")
unfolding dotted impact_socket_set.Uri.Print.to_string impact_socket_set.Uri.Print.digits
dotted_little = (refl, refl)
