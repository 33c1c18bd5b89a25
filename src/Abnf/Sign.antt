-- ===== src/Abnf/Sign.antt =====
-- Which classes depend on the sign of `char`.
use impact_socket_set.Base.{ℕ, ◌<◌, Bool, true, false, ◌||◌, ◌==◌, ◌≡◌, arith, leb, within}
use impact_socket_set.Abnf.{alpha, digit, hexdig, char, ctl, octet, vchar}

-- For every byte, ALPHA, DIGIT, HEXDIG, CHAR, CTL and VCHAR answer the same whether `char` is
-- signed or not, and hold of the range of RFC 5234 (with HEXDIG in either case).
classes_sign :
    (signed : Bool) (c : ℕ)
    → c < 256
    → (alpha signed c ≡ (within 0x41 0x5A c || within 0x61 0x7A c))
      × (digit signed c ≡ within 0x30 0x39 c)
      × (hexdig signed c ≡ (within 0x30 0x39 c || within 0x41 0x46 c || within 0x61 0x66 c))
      × (char signed c ≡ within 0x01 0x7F c)
      × (ctl signed c ≡ (leb c 0x1F || c == 0x7F))
      × (vchar signed c ≡ within 0x21 0x7E c)
unfolding alpha digit hexdig char ctl vchar
classes_sign signed c h =
    (ground arith, ground arith, ground arith, ground arith, ground arith, ground arith)

-- OCTET holds of every byte if `char` is unsigned, and of 0x00 and 0xFF alone if it is signed.
octet_sign : (c : ℕ) → c < 256 → (octet false c ≡ true) × (octet true c ≡ (c == 0x00 || c == 0xFF))
unfolding octet
octet_sign c h = (ground arith, ground arith)
