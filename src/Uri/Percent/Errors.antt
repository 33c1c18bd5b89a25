-- ===== src/Uri/Percent/Errors.antt =====
-- Which texts `_S_percent_decode` accepts, and what it leaves when it does not.
use impact_socket_set.Base.{
  ℕ, Bool, true, false, if◌then◌else◌, Option, none, some, [], ◌∷◌, ◌++◌, Bytes, ◌≡◌, refl, ap, ◌∙◌,
  arith, Bool-cases, inl, inr,
}
use impact_socket_set.Errno.{ImpErr, success, uri_port_sym}
use impact_socket_set.Uri.Chars.{tolower, toupper}
use impact_socket_set.Uri.Percent.{
  Mode, plain, percent, nibble, pair_output, decode_step, decode_loop, settle, percent_decode,
}
use impact_socket_set.Uri.Percent.Decoded.{
  visible, well_encoded_in, well_encoded, decoded, decode_loop-decoded,
}

nibble_irrelevant :
    (a b : ℕ) (text : Bytes) → well_encoded_in (nibble a) text ≡ well_encoded_in (nibble b) text
nibble_irrelevant a b [] = refl
nibble_irrelevant a b (c ∷ rest) = refl

abbrev is_empty : Bytes → Bool
is_empty [] = true
is_empty (c ∷ rest) = false

abbrev succeeds : Option Bytes → Bool
succeeds none = false
succeeds (some os) = true

succeeds-decode_loop :
    (lower : Bool) (mode : Mode) (text os : Bytes)
    → succeeds (decode_loop lower mode text os) ≡ well_encoded_in mode (visible text)
unfolding decode_loop decode_step
succeeds-decode_loop lower plain [] os = refl
succeeds-decode_loop lower percent [] os = refl
succeeds-decode_loop lower (nibble hi) [] os = refl
succeeds-decode_loop lower plain (c ∷ rest) os = ground (
  arith,
  succeeds-decode_loop lower plain rest os,
  succeeds-decode_loop lower percent rest (os ++ []),
  succeeds-decode_loop lower plain rest (os ++ ((if lower then tolower c else c) ∷ [])),
)
succeeds-decode_loop lower percent (c ∷ rest) os = ground (
  arith,
  succeeds-decode_loop lower percent rest os,
  succeeds-decode_loop lower (nibble (toupper c)) rest (os ++ []),
  nibble_irrelevant (toupper c) c (visible rest),
)
succeeds-decode_loop lower (nibble hi) (c ∷ rest) os = ground (
  arith,
  succeeds-decode_loop lower (nibble hi) rest os,
  succeeds-decode_loop lower plain rest (os ++ pair_output hi (toupper c)),
)

settle_fails :
    (text : Bytes) (o : Option Bytes)
    → succeeds o ≡ false
    → settle text o ≡ record { accepted = false; errno = uri_port_sym; out = text }
settle_fails text none e = refl
settle_fails text (some os) e = cc

-- `_S_percent_decode` accepts exactly the texts in which, white space apart, every '%' is
-- followed by two hexadecimal digits. A rejected text is left as it was, with the code
-- URI_PORT_SYM; an accepted one becomes its decoded text, without white space and in lower case where
-- that is asked for, with reserved characters and '%' still encoded, and leaves SUCCESS, or, if it is
-- empty, the code of before.
pub percent_decode_verdict :
    (text : Bytes) (lower : Bool) (errno : ImpErr)
    → percent_decode text lower errno ≡ (
        if well_encoded (visible text)
        then record {
          accepted = true;
          errno = if is_empty text then errno else success;
          out = decoded lower (visible text);
        }
        else record { accepted = false; errno = uri_port_sym; out = text })
unfolding percent_decode
percent_decode_verdict [] lower errno = refl
percent_decode_verdict (c ∷ rest) lower errno =
    elim (Bool-cases (well_encoded (visible (c ∷ rest)))) [
      | inl w ↦
          rw w (ap (settle (c ∷ rest)) (decode_loop-decoded lower plain plain (c ∷ rest) [] tt w))
      | inr w ↦ rw w (
          settle_fails (c ∷ rest) (decode_loop lower plain (c ∷ rest) [])
            (succeeds-decode_loop lower plain (c ∷ rest) [] ∙ w))
    ]
