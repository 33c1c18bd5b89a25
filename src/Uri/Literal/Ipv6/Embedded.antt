-- ===== src/Uri/Literal/Ipv6/Embedded.antt =====
-- An IPv6 address that ends in an IPv4 address, "hex groups:dec.dec.dec.dec".
use impact_socket_set.Base.{
  ℕ, zero, suc, ◌+◌, ◌≤◌, Bool, true, false, ltb, ◌==◌, Bool-cases, ==_iff, Option, none, some,
  Bytes, ◌≡◌, refl, inl, inr, arith,
}
use impact_socket_set.Errno.{ImpErr, uri_invl_ip_lit}
use impact_socket_set.Uri.Chars.{is_hexdig}
use impact_socket_set.Uri.Literal.Ipv6.{
  char_at, DecState, dec_loop, HexState, HexStep, keep, quit, refuse, hex_step, hex_loop, hex_end,
  hex, dec, dec_end, DecStep, go, leave, reject, dec_step,
}

-- Two ':' side by side.
abbrev pub DoubleColon : Bytes → Type 0
DoubleColon text = (k : ℕ) × (char_at text k ≡ b':') × (char_at text (suc k) ≡ b':')

-- No "::" was passed, and a group that is still empty begins behind a ':'.
record Before (text : Bytes) (i : ℕ) (h : HexState) : Type 0 where
  no_placeholder : h.have_placeholder ≡ false
  behind_colon : h.hcnt ≡ 0 → char_at text (suc i) ≡ b':'

-- What a step leaves: the same, one place further on, or a "::".
abbrev Stepped : Bytes → ℕ → HexStep → Type 0
Stepped text i (keep h) =
    (h.have_placeholder ≡ true → DoubleColon text)
    × (h.have_placeholder ≡ false → h.hcnt ≡ 0 → char_at text i ≡ b':')
Stepped text i (quit h) = h.have_placeholder ≡ true → DoubleColon text
Stepped text i refuse = Unit

hex_step-Stepped :
    (text : Bytes) (i : ℕ) (h : HexState)
    → Before text i h
    → Stepped text i (hex_step h i (char_at text i))
unfolding hex_step
hex_step-Stepped text i h b = elim (Bool-cases (is_hexdig (char_at text i))) [
  | inl digit ↦ elim (Bool-cases (ltb 4 (h.hcnt + 1))) [
    | inl long ↦ rw (Stepped, hex_step, digit, long) tt
    | inr short ↦
        rw (Stepped, hex_step, digit, short)
          (λ e. ground (arith, b.no_placeholder), λ e z. omega arith)
  ]
  | inr other ↦ elim (Bool-cases (char_at text i == b':')) [
    | inl colon ↦
        let colon_eq : char_at text i ≡ b':' = (==_iff (char_at text i) b':').0 colon in
        elim (Bool-cases (ltb 0 h.hcnt)) [
          | inl digits ↦ elim (Bool-cases (h.hgrp == 8)) [
            | inl full ↦
                rw (Stepped, hex_step, other, colon, digits, full)
                  (λ e. ground (arith, b.no_placeholder))
            | inr free ↦
                rw (Stepped, hex_step, other, colon, digits, free)
                  (λ e. ground (arith, b.no_placeholder), λ e z. colon_eq)
          ]
          | inr empty ↦
              let next : char_at text (suc i) ≡ b':' = b.behind_colon (ground arith) in
              rw (Stepped, hex_step, other, colon, empty, b.no_placeholder)
                (λ e. (i, colon_eq, next), λ e z. colon_eq)
        ]
    | inr none_of ↦ rw (Stepped, hex_step, other, none_of) tt
  ]
]

-- Where the loop ends with a placeholder, it passed a "::".
abbrev Ended : Bytes → Option (ℕ × HexState) → Type 0
Ended text none = Unit
Ended text (some r) = r.1.have_placeholder ≡ true → DoubleColon text

passed-Ended : (text : Bytes) (o : Option (ℕ × HexState)) → DoubleColon text → Ended text o
passed-Ended text none d = tt
passed-Ended text (some r) d = λ e. d

keep-Ended :
    (text : Bytes) (i : ℕ) (h : HexState) (o : Option (ℕ × HexState))
    → Stepped text (suc i) (keep h)
    → (Before text i h → Ended text o)
    → Ended text o
keep-Ended text i h o s next = elim (Bool-cases h.have_placeholder) [
  | inl e ↦ passed-Ended text o (s.0 e)
  | inr e ↦ next (record { no_placeholder = e; behind_colon = s.1 e })
]

hex_loop-Ended :
    (text : Bytes) (i : ℕ) (h : HexState) → Before text i h → Ended text (hex_loop text i h)
unfolding hex_loop
hex_loop-Ended text zero h b = go (hex_step h 0 (char_at text 0)) (hex_step-Stepped text 0 h b)
  where
    go :
        (s : HexStep)
        → Stepped text 0 s
        → Ended text
            (elim s [ keep h' ↦ some (zero, h') | quit h' ↦ some (zero, h') | refuse ↦ none ])
    go (keep h') st = st.0
    go (quit h') st = st
    go refuse st = tt
hex_loop-Ended text (suc i) h b =
    step_Ended (hex_step h (suc i) (char_at text (suc i))) (hex_step-Stepped text (suc i) h b)
      (hex_loop-Ended text i)
  where
    step_Ended :
        (s : HexStep)
        → Stepped text (suc i) s
        → ((h' : HexState) → Before text i h' → Ended text (hex_loop text i h'))
        → Ended text
            (elim s [ keep h' ↦ hex_loop text i h' | quit h' ↦ some (suc i, h') | refuse ↦ none ])
    step_Ended (keep h') st next = keep-Ended text i h' (hex_loop text i h') st (next h')
    step_Ended (quit h') st next = st
    step_Ended refuse st next = tt

hex_end-placeholder :
    (text : Bytes) (i : ℕ) (h : HexState) → hex_end text true i h ≡ true → h.have_placeholder ≡ true
unfolding hex_end
hex_end-placeholder text i h e = ground arith

hex-DoubleColon :
    (text : Bytes) (i : ℕ)
    → char_at text (suc i) ≡ b':'
    → hex text i false true ≡ true
    → DoubleColon text
unfolding hex
hex-DoubleColon text i colon =
    accepted (hex_loop text i _)
      (hex_loop-Ended text i _ (record { no_placeholder = refl; behind_colon = λ z. colon }))
  where
    accepted :
        (o : Option (ℕ × HexState))
        → Ended text o
        → elim o [ none ↦ false | some (j, h) ↦ hex_end text true j h ] ≡ true
        → DoubleColon text
    accepted none d e = ground arith
    accepted (some (j, h)) d e = d (hex_end-placeholder text j h e)

-- The loop over the decimal groups does not run to the first character.
abbrev AtLeast : Option (ℕ × ℕ) → Type 0
AtLeast none = Unit
AtLeast (some r) = 1 ≤ r.0

dec_loop-AtLeast : (text : Bytes) (i : ℕ) (d : DecState) → AtLeast (dec_loop text (suc i) d)
unfolding dec_loop
dec_loop-AtLeast text zero d = omega arith
dec_loop-AtLeast text (suc i) d =
    step_AtLeast (dec_step d (char_at text (suc (suc i)))) (dec_loop-AtLeast text i)
  where
    step_AtLeast :
        (s : DecStep)
        → ((d' : DecState) → AtLeast (dec_loop text (suc i) d'))
        → AtLeast (elim s [
          | go d' ↦ dec_loop text (suc i) d'
          | leave ↦ some (suc (suc i), d.dgrp)
          | reject ↦ none
        ])
    step_AtLeast (go d') next = next d'
    step_AtLeast leave next = omega arith
    step_AtLeast reject next = tt

dec_end-DoubleColon :
    (text : Bytes) (j dgrp : ℕ) → (dec_end text (suc j) dgrp).0 ≡ true → DoubleColon text
unfolding dec_end
dec_end-DoubleColon text j dgrp e = elim (Bool-cases (char_at text (suc j) == b':')) [
  | inl colon ↦
      let colon_eq : char_at text (suc j) ≡ b':' = (==_iff (char_at text (suc j)) b':').0 colon in
      elim (Bool-cases (char_at text j == b':')) [
        | inl before ↦ (j, (==_iff (char_at text j) b':').0 before, colon_eq)
        | inr other ↦ hex-DoubleColon text j colon_eq (ground (arith, other))
      ]
  | inr other ↦ ground (arith, other)
]

abbrev dec_result : Bytes → Option (ℕ × ℕ) → Bool × ImpErr
dec_result text none = (false, uri_invl_ip_lit)
dec_result text (some (j, dgrp)) = dec_end text j dgrp

-- From the label `dec` on, entered anywhere but at the first character.
pub dec-DoubleColon : (text : Bytes) (i : ℕ) → (dec text (suc i)).0 ≡ true → DoubleColon text
unfolding dec
dec-DoubleColon text i = stopped (dec_loop text (suc i) _) (dec_loop-AtLeast text i _)
  where
    stopped : (o : Option (ℕ × ℕ)) → AtLeast o → (dec_result text o).0 ≡ true → DoubleColon text
    stopped none a e = ground arith
    stopped (some (zero, dgrp)) a e = absurd (omega arith)
    stopped (some (suc j, dgrp)) a e = dec_end-DoubleColon text j dgrp e
