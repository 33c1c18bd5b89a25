-- ===== src/Uri/Percent/Raw.antt =====
-- The `_S_percent_decode` behind the `norm_…` observers, beside percent-encoding.
use impact_socket_set.Base.{
  ℕ, ◌+◌, ◌-◌, ◌/◌, ◌%◌, ltb, if◌then◌else◌, [], ◌∷◌, ◌++◌, Bytes, IsByte, All, ◌≡◌, refl,
}
use impact_socket_set.Base.Table.{holds_below, agree_below}
use impact_socket_set.Uri.Percent.{pair_value, raw_loop, raw_decode, plain}

-- The hexadecimal digit of a number below 16.
abbrev pub hex_digit : ℕ → ℕ
hex_digit d = if ltb d 10 then b'0' + d else b'A' + (d - 10)

-- Every byte as '%' and two digits (RFC 3986, 2.1).
unfoldable pub encode_all : Bytes → Bytes
encode_all [] = []
encode_all (b ∷ rest) = b'%' ∷ hex_digit (b / 16) ∷ hex_digit (b % 16) ∷ encode_all rest

pair_value-hex_digit : (b : ℕ) → IsByte b → pair_value (hex_digit (b / 16)) (hex_digit (b % 16)) ≡ b
unfolding pair_value holds_below
pair_value-hex_digit b h =
    agree_below 256 (λ b. pair_value (hex_digit (b / 16)) (hex_digit (b % 16))) (λ b. b) refl b h

-- The decoding behind the `norm_…` observers gives every byte back that was written as '%' and two
-- upper-case digits, and goes on with the text behind.
pub raw_decode-encode_all :
    (text rest : Bytes)
    → All IsByte text
    → raw_decode (encode_all text ++ rest) ≡ text ++ raw_decode rest
unfolding raw_decode raw_loop encode_all
raw_decode-encode_all [] rest h = refl
raw_decode-encode_all (b ∷ text) rest h =
    let same_rest : raw_loop plain (encode_all text ++ rest) ≡ text ++ raw_loop plain rest =
      raw_decode-encode_all text rest h.1 in
    rw (pair_value-hex_digit b h.0, same_rest) refl
