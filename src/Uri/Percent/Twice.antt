-- ===== src/Uri/Percent/Twice.antt =====
-- Decoding what was decoded: the pairs that stay encoded stay so again.
use impact_socket_set.Base.{
  ℕ, Bool, true, false, not, ◌&&◌, ◌||◌, ◌==◌, if◌then◌else◌, Bool-cases, Option, none, some, [],
  ◌∷◌, ◌++◌, append-nil, append_assoc, Bytes, all_of, inl, inr, ◌≡◌, refl, sym, ap, ◌∙◌, arith,
}
use impact_socket_set.Errno.{ImpErr}
use impact_socket_set.Abnf
use impact_socket_set.Uri.Chars.{is_hexdig, is_space, reserved, tolower, toupper}
use impact_socket_set.Uri.Percent.{
  Mode, plain, percent, nibble, pair_value, pair_output, decode_step, decode_loop, settle,
  percent_decode,
}

-- A hexadecimal digit that `toupper` leaves alone.
record UpperHex (c : ℕ) : Type 0 where
  digit : is_hexdig c ≡ true
  upper : toupper c ≡ c

toupper-UpperHex : (c : ℕ) → is_hexdig c ≡ true → UpperHex (toupper c)
unfolding is_hexdig Abnf.hexdig Abnf.digit toupper
toupper-UpperHex c h = ground arith

-- A text that decoding leaves alone, white space apart.
data Stable : Bytes → Type 0 where
  end : Stable []
  char : {c : ℕ} {rest : Bytes} → (c == b'%') ≡ false → Stable rest → Stable (c ∷ rest)
  pair :
      {hi lo : ℕ} {rest : Bytes}
      → UpperHex hi
      → UpperHex lo
      → pair_output hi lo ≡ b'%' ∷ hi ∷ lo ∷ []
      → Stable rest
      → Stable (b'%' ∷ hi ∷ lo ∷ rest)

Stable-append : {xs ys : Bytes} → Stable xs → Stable ys → Stable (xs ++ ys)
Stable-append end t = t
Stable-append (char n s) t = char n (Stable-append s t)
Stable-append (pair h l e s) t = pair h l e (Stable-append s t)

and_parts : (a b : Bool) → (a && b) ≡ true → (a ≡ true) × (b ≡ true)
and_parts a b h = (ground arith, ground arith)

not-false : (b : Bool) → not b ≡ true → b ≡ false
not-false b h = ground arith

or_right : (a b : Bool) → (a || b) ≡ false → b ≡ false
or_right a b h = ground arith

-- What one pair writes: the pair again, or one character that is not '%'.
pair_output-Stable : (hi lo : ℕ) → UpperHex hi → UpperHex lo → Stable (pair_output hi lo)
pair_output-Stable hi lo h l =
    elim (Bool-cases (reserved (pair_value hi lo) || pair_value hi lo == b'%')) [
      | inl kept ↦
          let e : pair_output hi lo ≡ b'%' ∷ hi ∷ lo ∷ [] = unfold pair_output in rw kept in
          rw e (pair h l e end)
      | inr other ↦
          let e : pair_output hi lo ≡ pair_value hi lo ∷ [] = unfold pair_output in rw other in
          rw e (char (or_right _ _ other) end)
    ]

-- The digit that a state holds.
abbrev Holds : Mode → Type 0
Holds plain = Unit
Holds percent = Unit
Holds (nibble hi) = UpperHex hi

abbrev Fits : Option (Mode × Bytes) → Type 0
Fits none = Unit
Fits (some (mode, bytes)) = Holds mode × Stable bytes

written_char :
    (lower : Bool) (c : ℕ)
    → (c == b'%') ≡ false
    → ((if lower then tolower c else c) == b'%') ≡ false
unfolding tolower
written_char lower c h = ground arith

decode_step-Fits :
    (lower : Bool) (mode : Mode) (c : ℕ) → Holds mode → Fits (decode_step lower mode c)
unfolding decode_step
decode_step-Fits lower plain c h = elim (Bool-cases (c == b'%')) [
  | inl e ↦ rw (decode_step, e) (tt, end)
  | inr e ↦ rw (decode_step, e) (tt, char (written_char lower c e) end)
]
decode_step-Fits lower percent c h = elim (Bool-cases (is_hexdig c)) [
  | inl e ↦ rw (decode_step, e) (toupper-UpperHex c e, end)
  | inr e ↦ rw (decode_step, e) tt
]
decode_step-Fits lower (nibble hi) c h = elim (Bool-cases (is_hexdig c)) [
  | inl e ↦ rw (decode_step, e) (tt, pair_output-Stable hi (toupper c) h (toupper-UpperHex c e))
  | inr e ↦ rw (decode_step, e) tt
]

abbrev Ends : Option Bytes → Type 0
Ends none = Unit
Ends (some os) = Stable os

-- One round of the loop, behind its step.
advance :
    (o : Option (Mode × Bytes)) (k : Mode → Bytes → Option Bytes)
    → Fits o
    → ((mode : Mode) (bytes : Bytes) → Holds mode → Stable bytes → Ends (k mode bytes))
    → Ends (elim o [ none ↦ none | some (mode, bytes) ↦ k mode bytes ])
advance none k f next = tt
advance (some (mode, bytes)) k f next = next mode bytes f.0 f.1

decode_loop-Ends :
    (lower : Bool) (mode : Mode) (text os : Bytes)
    → Holds mode
    → Stable os
    → Ends (decode_loop lower mode text os)
unfolding decode_loop
decode_loop-Ends lower plain [] os h s = s
decode_loop-Ends lower percent [] os h s = tt
decode_loop-Ends lower (nibble hi) [] os h s = tt
decode_loop-Ends lower mode (c ∷ rest) os h s = elim (Bool-cases (is_space c)) [
  | inl e ↦ rw (e, Ends, decode_loop) (decode_loop-Ends lower mode rest os h s)
  | inr e ↦
      rw (e, Ends, decode_loop)
        (advance (decode_step lower mode c)
          (λ mode' bytes. decode_loop lower mode' rest (os ++ bytes))
          (decode_step-Fits lower mode c h)
          (λ mode' bytes h' t.
            decode_loop-Ends lower mode' rest (os ++ bytes) h' (Stable-append s t)))
]

loop_step :
    (mode mode' : Mode) (c : ℕ) (rest os bytes : Bytes)
    → is_space c ≡ false
    → decode_step false mode c ≡ some (mode', bytes)
    → decode_loop false mode (c ∷ rest) os ≡ decode_loop false mode' rest (os ++ bytes)
unfolding decode_loop
loop_step plain mode' c rest os bytes v e = rw (v, e, decode_loop)
loop_step mode mode' c rest os bytes v e = rw (v, e, decode_loop)

-- Three steps over a pair that stays.
loop_pair :
    (hi lo : ℕ) (rest os : Bytes)
    → UpperHex hi
    → UpperHex lo
    → pair_output hi lo ≡ b'%' ∷ hi ∷ lo ∷ []
    → is_space hi ≡ false
    → is_space lo ≡ false
    → decode_loop false plain (b'%' ∷ hi ∷ lo ∷ rest) os
      ≡ decode_loop false plain rest (os ++ (b'%' ∷ hi ∷ lo ∷ []))
unfolding decode_step
loop_pair hi lo rest os h l e vh vl =
    loop_step plain percent b'%' (hi ∷ lo ∷ rest) os [] (unfold is_space in refl) refl
    ∙ loop_step percent (nibble hi) hi (lo ∷ rest) _ [] vh (rw (h.digit, h.upper))
    ∙ loop_step (nibble hi) plain lo rest _ (b'%' ∷ hi ∷ lo ∷ []) vl (rw (l.digit, l.upper, e))
    ∙ ap (λ o. decode_loop false plain rest (o ++ (b'%' ∷ hi ∷ lo ∷ [])))
        (append-nil _ ∙ append-nil os)

-- A stable text with no white space is decoded to itself.
decode_loop-eq :
    {text : Bytes} (os : Bytes)
    → Stable text
    → all_of (λ c. not (is_space c)) text ≡ true
    → decode_loop false plain text os ≡ some (os ++ text)
decode_loop-eq os end v = unfold decode_loop in ap some (sym (append-nil os))
decode_loop-eq os (char {c} {rest} n s) v =
    let (vc, vr) = and_parts _ _ v in
    loop_step plain plain c rest os (c ∷ []) (not-false _ vc) (unfold decode_step in rw n)
    ∙ decode_loop-eq (os ++ (c ∷ [])) s vr
    ∙ ap some (append_assoc os (c ∷ []) rest)
decode_loop-eq os (pair {hi} {lo} {rest} h l e s) v =
    let (v0, v1) = and_parts _ _ v in
    let (vh, v2) = and_parts _ _ v1 in
    let (vl, vr) = and_parts _ _ v2 in
    loop_pair hi lo rest os h l e (not-false _ vh) (not-false _ vl)
    ∙ decode_loop-eq (os ++ (b'%' ∷ hi ∷ lo ∷ [])) s vr
    ∙ ap some (append_assoc os (b'%' ∷ hi ∷ lo ∷ []) rest)

percent_decode-Stable :
    {os : Bytes} (errno : ImpErr)
    → Stable os
    → all_of (λ c. not (is_space c)) os ≡ true
    → let a = percent_decode os false errno in (a.accepted ≡ true) × (a.out ≡ os)
unfolding percent_decode
percent_decode-Stable errno end v = (refl, refl)
percent_decode-Stable errno (char n s) v = rw (decode_loop-eq [] (char n s) v) (refl, refl)
percent_decode-Stable errno (pair h l e s) v = rw (decode_loop-eq [] (pair h l e s) v) (refl, refl)

settled_twice :
    (text : Bytes) (o : Option Bytes) (errno : ImpErr)
    → Ends o
    → (settle text o).accepted ≡ true
    → all_of (λ c. not (is_space c)) (settle text o).out ≡ true
    → let twice = percent_decode (settle text o).out false errno in
      (twice.accepted ≡ true) × (twice.out ≡ (settle text o).out)
settled_twice text none errno s a v = cc
settled_twice text (some os) errno s a v = percent_decode-Stable errno s v

-- A text that `_S_percent_decode` has accepted, with lower case or without, is left as it is by
-- a second call that does not lower the case, if no white space came out of the first.
percent_decode_twice :
    (text : Bytes) (lower : Bool) (errno errno' : ImpErr)
    → let once = percent_decode text lower errno in
      once.accepted ≡ true
      → all_of (λ c. not (is_space c)) once.out ≡ true
      → let twice = percent_decode once.out false errno' in
        (twice.accepted ≡ true) × (twice.out ≡ once.out)
unfolding percent_decode
percent_decode_twice [] lower errno errno' a v = (refl, refl)
percent_decode_twice (c ∷ rest) lower errno errno' a v =
    settled_twice (c ∷ rest) (decode_loop lower plain (c ∷ rest) []) errno'
      (decode_loop-Ends lower plain (c ∷ rest) [] tt end) a v
