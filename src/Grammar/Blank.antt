-- ===== src/Grammar/Blank.antt =====
-- Libraries/ABNF_Parser/main.cpp: the loops `while (c_wsp(stream)) continue;` on white space.
use impact_socket_set.Base.{
  ℕ, zero, suc, ◌+◌, ◌<◌, Bool, true, false, ltb, if◌then◌else◌, Option, none, some, Bytes, length,
  get_or, ◌≡◌, refl, ap, ◌∙◌, arith,
}
use impact_socket_set.Grammar.{
  Input, Verdict, end_char, get, peek, tellg, conclude, wsp, c_nl, c_wsp, skip_c_wsp, defined_as,
}

-- A stream that is good, at a place.
abbrev pub at : Bytes → ℕ → Input
at text place = record { text = text; place = place; eof_bit = false; fail_bit = false }

pub get-at :
    (text : Bytes) (place : ℕ)
    → place < length text
    → get (at text place) ≡ (get_or text place end_char, at text (place + 1))
unfolding get
get-at text place inside =
    let more : ltb place (length text) ≡ true = ground (arith, inside) in rw (more, get) refl

pub peek-at :
    (text : Bytes) (place : ℕ)
    → place < length text
    → peek (at text place) ≡ (get_or text place end_char, at text place)
unfolding peek
peek-at text place inside =
    let more : ltb place (length text) ≡ true = ground (arith, inside) in rw (more, peek) refl

-- White space is seen, and not taken.
c_wsp-blank :
    (swapped : Bool) (text : Bytes) (place : ℕ)
    → place < length text
    → wsp (get_or text place end_char) ≡ true
    → c_wsp swapped (at text place) ≡ (true, at text place)
unfolding c_wsp tellg
c_wsp-blank swapped text place inside blank =
    let others : ℕ × Input → Verdict = λ r.
      let (line, s3) = c_nl swapped r.1 in
      let (d, s4) = get s3 in
      conclude (some place)
        (if wsp r.0 then (true, r.1) else if line then (wsp d, s4) else (false, s3)) in
    let rest : Verdict =
      let (line, s3) = c_nl swapped (at text place) in
      let (d, s4) = get s3 in if line then (wsp d, s4) else (false, s3) in
    ap others (peek-at text place inside)
    ∙ ap (λ b. conclude (some place) (if b then (true, at text place) else rest)) blank

-- No number of rounds is enough for the loop.
skip_c_wsp-blank :
    (rounds : ℕ) (swapped : Bool) (text : Bytes) (place : ℕ)
    → place < length text
    → wsp (get_or text place end_char) ≡ true
    → skip_c_wsp rounds swapped (at text place) ≡ none
unfolding skip_c_wsp
skip_c_wsp-blank zero swapped text place inside blank = refl
skip_c_wsp-blank (suc rounds) swapped text place inside blank =
    let next : Verdict → Option Input =
      λ r. if r.0 then skip_c_wsp rounds swapped r.1 else some r.1 in
    ap next (c_wsp-blank swapped text place inside blank)
    ∙ skip_c_wsp-blank rounds swapped text place inside blank

-- `defined_as` never ends where a good stream is at a space or a tab, whatever the number of rounds
-- of its loops: `c_wsp` answers true there, and leaves the stream as it is.
pub defined_as-stuck :
    (rounds : ℕ) (swapped : Bool) (text : Bytes) (place : ℕ)
    → place < length text
    → wsp (get_or text place end_char) ≡ true
    → (c_wsp swapped (at text place) ≡ (true, at text place))
      × (defined_as rounds swapped (at text place) ≡ none)
unfolding defined_as tellg
defined_as-stuck rounds swapped text place inside blank = (
  c_wsp-blank swapped text place inside blank,
  rw (skip_c_wsp-blank rounds swapped text place inside blank, defined_as) refl,
)
