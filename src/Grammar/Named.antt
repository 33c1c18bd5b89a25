-- ===== src/Grammar/Named.antt =====
-- Libraries/ABNF_Parser/main.cpp: what `rule` calls first, rulename and then defined_as.
use impact_socket_set.Base.{
  ℕ, ◌<◌, Bool, true, false, ◌||◌, ◌==◌, none, Bytes, length, get_or, ◌≡◌, arith,
}
use impact_socket_set.Grammar.{end_char, alpha, digit, wsp, rulename, defined_as}
use impact_socket_set.Grammar.Blank.{at, defined_as-stuck}
use impact_socket_set.Grammar.Longest.{rulename-longest}

not_in_name : (x : ℕ) → wsp x ≡ true → (alpha x || digit x || x == b'-') ≡ false
not_in_name x blank = ground (arith, blank)

-- In a good stream, before a letter, the letters, digits and hyphens behind it, and a space or a
-- tab behind these: `rulename` takes exactly the name, and `defined_as`, which `rule` calls next,
-- never ends, whatever the number of rounds of its loops.
pub named-stuck :
    (rounds : ℕ) (swapped : Bool) (text : Bytes) (place last : ℕ)
    → place < last
    → last < length text
    → alpha (get_or text place end_char) ≡ true
    → ((i : ℕ)
        → place < i
        → i < last
        → (alpha (get_or text i end_char)
            || digit (get_or text i end_char)
            || get_or text i end_char == b'-')
          ≡ true)
    → wsp (get_or text last end_char) ≡ true
    → (rulename (at text place) ≡ (true, at text last))
      × (defined_as rounds swapped (at text last) ≡ none)
named-stuck rounds swapped text place last ahead inside letter name blank = (
  rulename-longest text place last ahead letter (record {
    inside = inside;
    passed = λ i from less. name i (omega (arith, from)) less;
    stopped = not_in_name (get_or text last end_char) blank;
  }),
  (defined_as-stuck rounds swapped text last inside blank).1,
)
