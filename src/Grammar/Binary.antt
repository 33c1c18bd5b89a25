-- ===== src/Grammar/Binary.antt =====
-- Libraries/ABNF_Parser/main.cpp: num_val on a binary value.
use impact_socket_set.Base.{
  ℕ, ◌+◌, ◌<◌, Bool, false, ◌==◌, if◌then◌else◌, some, Bytes, length, get_or, ◌≡◌, ap, ◌∙◌, arith,
}
use impact_socket_set.Grammar.{
  Input, Verdict, no_extension, end_char, get, tellg, rewind, conclude, enough, series, value, bit,
  digit, hexdig, bin_val, dec_val, hex_val, or_else, num_val,
}
use impact_socket_set.Grammar.Blank.{at, get-at}

-- A value whose letter is another is refused, and the stream is put back.
value-other :
    (letter : ℕ) (test : ℕ → Bool) (text : Bytes) (place : ℕ)
    → place < length text
    → (get_or text place end_char == letter) ≡ false
    → value letter test (at text place) ≡ (false, at text place)
unfolding value tellg rewind
value-other letter test text place inside other =
    let next : ℕ × Input → Verdict = λ r.
      conclude (some place)
        (if r.0 == letter then series (enough r.1) test no_extension r.1 else (false, r.1)) in
    let taken : Verdict =
      series (enough (at text (place + 1))) test no_extension (at text (place + 1)) in
    ap next (get-at text place inside)
    ∙ ap (λ b. conclude (some place) (if b then taken else (false, at text (place + 1)))) other

-- No binary value is recognized: behind "%b" `num_val` fails, whatever follows, and puts the stream
-- back. (The recognizer of binary values asks for the letter 'd', as that of decimal values does.)
num_val-binary :
    (text : Bytes) (place : ℕ)
    → place + 1 < length text
    → get_or text place end_char ≡ b'%'
    → get_or text (place + 1) end_char ≡ b'b'
    → num_val (at text place) ≡ (false, at text place)
unfolding num_val bin_val dec_val hex_val tellg rewind
num_val-binary text place inside percent letter =
    let body : Input → Verdict = or_else bin_val (or_else dec_val hex_val) in
    let next : ℕ × Input → Verdict =
      λ r. conclude (some place) (if r.0 == b'%' then body r.1 else (false, r.1)) in
    let t : Input = at text (place + 1) in
    let first : get (at text place) ≡ (b'%', t) =
      get-at text place (omega (arith, inside)) ∙ ap (λ c. (c, t)) percent in
    let not_d : (get_or text (place + 1) end_char == b'd') ≡ false = ground (arith, letter) in
    let not_x : (get_or text (place + 1) end_char == b'x') ≡ false = ground (arith, letter) in
    let no_bin : bin_val t ≡ (false, t) = value-other b'd' bit text (place + 1) inside not_d in
    let no_dec : dec_val t ≡ (false, t) = value-other b'd' digit text (place + 1) inside not_d in
    let no_hex : hex_val t ≡ (false, t) = value-other b'x' hexdig text (place + 1) inside not_x in
    let after : (Input → Verdict) → Verdict → Verdict = λ b r. if r.0 then r else b r.1 in
    let failed : body t ≡ (false, t) =
      ap (after (or_else dec_val hex_val)) no_bin ∙ ap (after hex_val) no_dec ∙ no_hex in
    ap next first ∙ ap (conclude (some place)) failed
