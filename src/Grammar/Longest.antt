-- ===== src/Grammar/Longest.antt =====
-- Libraries/ABNF_Parser/main.cpp: the loops over the characters of a word, in rulename and in the
-- quoted values.
use impact_socket_set.Base.{
  ℕ, zero, suc, ◌+◌, ◌-◌, ◌<◌, ◌≤◌, Bool, true, false, ◌||◌, ◌==◌, if◌then◌else◌, some, Bytes,
  length, get_or, ◌≡◌, refl, ap, ◌∙◌, subst, arith,
}
use impact_socket_set.Grammar.{
  Input, Verdict, end_char, get, peek, tellg, rewind, conclude, alpha, digit, enough, skip_while,
  rulename, quoted,
}
use impact_socket_set.Grammar.Blank.{at, get-at, peek-at}

-- Where a loop over characters that starts at `place` stops: at the first that fails the test.
pub record StopsAt (test : ℕ → Bool) (text : Bytes) (place last : ℕ) : Type 0 where
  pub inside : last < length text
  pub passed : (i : ℕ) → place ≤ i → i < last → test (get_or text i end_char) ≡ true
  pub stopped : test (get_or text last end_char) ≡ false

peek-stop :
    (test : ℕ → Bool) (text : Bytes) (place last : ℕ)
    → StopsAt test text place last
    → last ≡ place
    → peek (at text place) ≡ (get_or text last end_char, at text last)
peek-stop test text place last h e =
    subst (λ p. peek (at text p) ≡ (get_or text last end_char, at text last)) e
      (peek-at text last h.inside)

skip_while-stops :
    (test : ℕ → Bool) (text : Bytes) (last count fuel place : ℕ)
    → last ≡ place + count
    → count ≤ fuel
    → StopsAt test text place last
    → skip_while fuel test (at text place) ≡ (get_or text last end_char, at text last)
unfolding skip_while
skip_while-stops test text last zero zero place e enough_fuel h =
    peek-stop test text place last h (omega (arith, e))
skip_while-stops test text last zero (suc fuel) place e enough_fuel h =
    let stop : ℕ × Input = (get_or text last end_char, at text last) in
    let next : ℕ × Input → ℕ × Input =
      λ r. if test r.0 then skip_while fuel test (get r.1).1 else (r.0, r.1) in
    ap next (peek-stop test text place last h (omega (arith, e)))
    ∙ ap (λ b. if b then skip_while fuel test (get stop.1).1 else stop) h.stopped
skip_while-stops test text last (suc count) zero place e enough_fuel h =
    absurd (omega (arith, enough_fuel))
skip_while-stops test text last (suc count) (suc fuel) place e enough_fuel h =
    let before : place < last = omega (arith, e) in
    let seen : ℕ × Input = (get_or text place end_char, at text place) in
    let next : ℕ × Input → ℕ × Input =
      λ r. if test r.0 then skip_while fuel test (get r.1).1 else (r.0, r.1) in
    ap next (peek-at text place (omega (arith, before, h.inside)))
    ∙ ap (λ b. if b then skip_while fuel test (get seen.1).1 else seen)
        (h.passed place (omega arith) before)
    ∙ ap (λ r. skip_while fuel test r.1) (get-at text place (omega (arith, before, h.inside)))
    ∙ skip_while-stops test text last count fuel (place + 1) (omega (arith, e))
        (omega (arith, enough_fuel))
        (record {
          inside = h.inside;
          passed = λ i from less. h.passed i (omega (arith, from)) less;
          stopped = h.stopped;
        })

skip_while-enough :
    (test : ℕ → Bool) (text : Bytes) (place last : ℕ)
    → place ≤ last
    → StopsAt test text place last
    → skip_while (enough (at text place)) test (at text place)
      ≡ (get_or text last end_char, at text last)
skip_while-enough test text place last ahead h =
    skip_while-stops test text last (last - place) (enough (at text place)) place
      (omega (arith, ahead)) (omega (arith, ahead, h.inside)) h

decided :
    (success : Bool) (text : Bytes) (place after : ℕ)
    → conclude (some place) (success, at text after)
      ≡ (if success then (true, at text after) else (false, at text place))
unfolding rewind
decided true text place after = refl
decided false text place after = refl

-- In a good stream, a text that begins with the opening mark, and in which the first character that
-- may not stand between the marks is at `last`, is recognized if that character is the closing
-- mark; then the stream is behind it. Otherwise it is refused and the stream put back.
pub quoted_verdict :
    (opening closing : ℕ) (inner : ℕ → Bool) (text : Bytes) (place last : ℕ)
    → place < last
    → get_or text place end_char ≡ opening
    → StopsAt inner text (place + 1) last
    → quoted opening closing inner (at text place) ≡ (
        if get_or text last end_char == closing
        then (true, at text (last + 1))
        else (false, at text place))
unfolding quoted tellg rewind
quoted_verdict opening closing inner text place last ahead opens h =
    let t : Input = at text (place + 1) in
    let finish : ℕ × Input → Verdict = λ r. let (d, s) = get r.1 in (d == closing, s) in
    let next : ℕ × Input → Verdict = λ r.
      conclude (some place)
        (if r.0 == opening then finish (skip_while (enough r.1) inner r.1) else (false, r.1)) in
    let opened : (get_or text place end_char == opening) ≡ true = ground (arith, opens) in
    ap next (get-at text place (omega (arith, ahead, h.inside)))
    ∙ ap
        (λ b.
          conclude (some place) (if b then finish (skip_while (enough t) inner t) else (false, t)))
        opened
    ∙ ap (λ r. conclude (some place) (finish r))
        (skip_while-enough inner text (place + 1) last (omega (arith, ahead)) h)
    ∙ ap (λ r. conclude (some place) (r.0 == closing, r.1)) (get-at text last h.inside)
    ∙ decided (get_or text last end_char == closing) text place (last + 1)

-- `rulename` takes a letter and all the letters, digits and hyphens behind it, up to the first
-- other character.
pub rulename-longest :
    (text : Bytes) (place last : ℕ)
    → place < last
    → alpha (get_or text place end_char) ≡ true
    → StopsAt (λ x. alpha x || digit x || x == b'-') text (place + 1) last
    → rulename (at text place) ≡ (true, at text last)
unfolding rulename
rulename-longest text place last ahead letter h =
    let here : place < length text = omega (arith, ahead, h.inside) in
    let name : ℕ → Bool = λ x. alpha x || digit x || x == b'-' in
    let rest : Input → Verdict = λ s. (true, (skip_while (enough s) name s).1) in
    let next : ℕ × Input → Verdict = λ r. if alpha r.0 then rest (get r.1).1 else (false, r.1) in
    ap next (peek-at text place here)
    ∙ ap (λ b. if b then rest (get (at text place)).1 else (false, at text place)) letter
    ∙ ap (λ r. rest r.1) (get-at text place here)
    ∙ ap (λ r. (true, r.1)) (skip_while-enough name text (place + 1) last (omega (arith, ahead)) h)
