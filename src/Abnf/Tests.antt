-- ===== src/Abnf/Tests.antt =====
-- The character classes at concrete characters.
use impact_socket_set.Base.{true, false, ◌≡◌, refl}
use impact_socket_set.Abnf.{octet, hexdig}

-- A byte that is an OCTET only where `char` is unsigned.
octet_41 : (octet false 0x41 ≡ true) × (octet true 0x41 ≡ false)
unfolding octet
octet_41 = (refl, refl)

hexdig_f : (hexdig true b'f' ≡ true) × (hexdig true b'g' ≡ false)
unfolding hexdig
hexdig_f = (refl, refl)
