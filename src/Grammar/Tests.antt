-- ===== src/Grammar/Tests.antt =====
-- The recognizers of Libraries/ABNF_Parser/main.cpp on short texts.
use impact_socket_set.Base.{
  ◌<◌, Bool, ◌||◌, ◌==◌, within, get_or, subst, ℕ, true, false, none, some, Bytes, ◌≡◌, refl, arith,
}
use impact_socket_set.Uri.Chars.{codes}
use impact_socket_set.Grammar.{
  alpha, digit, end_char, Input, get, peek, tellg, rewind, get_while, skip_while, comment, c_nl,
  c_wsp, skip_c_wsp, rulename, defined_as, quoted, char_val, series, value, bin_val, dec_val,
  hex_val, num_val, repeat,
}
use impact_socket_set.Grammar.Blank.{at}
use impact_socket_set.Grammar.Longest.{quoted_verdict}
use impact_socket_set.Grammar.Named.{named-stuck}

-- A stream that was peeked at twice at its end: the second peek sets failbit.
abbrev ended : Bytes → ℕ → Input
ended text place = record { text = text; place = place; eof_bit = true; fail_bit = true }

-- What may stand between the marks of prose_val.
abbrev between : ℕ → Bool
between c = within 0x20 0x3D c || within 0x3F 0x7E c

one : (i : ℕ) → 0 < i → i < 2 → 1 ≡ i
one i from less = omega (arith, from, less)

rulename_stops : rulename (at (codes "a-1 =") 0) ≡ (true, at (codes "a-1 =") 3)
unfolding rulename get peek skip_while
rulename_stops = refl

defined_as_again : defined_as 3 true (at (codes "=/x") 0) ≡ some (true, at (codes "=/x") 2)
unfolding defined_as skip_c_wsp c_wsp c_nl comment tellg get peek get_while rewind
defined_as_again = refl

dec_val_range : dec_val (at (codes "d1-23x") 0) ≡ (true, at (codes "d1-23x") 5)
unfolding dec_val value series tellg get peek skip_while
dec_val_range = refl

-- A range has no third part.
dec_val_mixed : dec_val (at (codes "d1-2.3") 0) ≡ (false, at (codes "d1-2.3") 0)
unfolding dec_val value series tellg get peek skip_while rewind
dec_val_mixed = refl

hex_val_end : num_val (at (codes "%xA.b") 0) ≡ (true, ended (codes "%xA.b") 5)
unfolding num_val bin_val dec_val hex_val value series tellg get peek skip_while rewind
hex_val_end = refl

char_val_open : char_val (at (codes "\"ab") 0) ≡ (false, at (codes "\"ab") 0)
unfolding char_val quoted tellg get peek skip_while rewind
char_val_open = refl

repeat_both : repeat (at (codes "1*2a") 0) ≡ (true, at (codes "1*2a") 3)
unfolding repeat tellg get peek skip_while
repeat_both = refl

named-stuck_example :
    (rulename (at (codes "a1 =x") 0) ≡ (true, at (codes "a1 =x") 2))
    × (defined_as 40 false (at (codes "a1 =x") 2) ≡ none)
named-stuck_example =
    named-stuck 40 false (codes "a1 =x") 0 2 (omega arith) (omega arith) refl
      (λ i from less.
        subst
          (λ k.
            (alpha (get_or (codes "a1 =x") k end_char)
              || digit (get_or (codes "a1 =x") k end_char)
              || get_or (codes "a1 =x") k end_char == b'-')
            ≡ true)
          (one i from less) refl)
      refl

quoted_verdict_example :
    quoted b'<' b'>' between (at (codes "<x>y") 0) ≡ (true, at (codes "<x>y") 3)
quoted_verdict_example =
    quoted_verdict b'<' b'>' between (codes "<x>y") 0 2 (omega arith) refl (record {
      inside = omega arith;
      passed = λ i from less.
          subst (λ k. between (get_or (codes "<x>y") k end_char) ≡ true) (one i from less) refl;
      stopped = refl;
    })
