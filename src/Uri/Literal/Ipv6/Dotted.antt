-- ===== src/Uri/Literal/Ipv6/Dotted.antt =====
-- `_S_parse_ipv6_address` on addresses that end in an IPv4 address: which of them it accepts.
use impact_socket_set.Base.{
  ℕ, zero, suc, ◌-◌, ◌≤◌, ◌<◌, Bool, true, false, ◌==◌, ◌&&◌, ◌||◌, Bool-cases, ==_iff, Option,
  none, some, [], ◌∷◌, Bytes, length, ◌≡◌, refl, ap, ◌∙◌, inl, inr, arith,
}
use impact_socket_set.Abnf.{hexdig, digit}
use impact_socket_set.Uri.Chars.{is_hexdig}
use impact_socket_set.Uri.Literal.Ipv6.{
  char_at, HexState, HexStep, keep, quit, refuse, hex_step, hex_loop, hex_end, hex, dec,
  ipv6_address,
}
use impact_socket_set.Uri.Literal.Ipv6.Embedded.{DoubleColon, dec-DoubleColon}

hex_step_dot : (h : HexState) (i : ℕ) → hex_step h i b'.' ≡ refuse
unfolding hex_step is_hexdig hexdig digit
hex_step_dot h i = refl

refused :
    (text : Bytes) (i : ℕ) (h : HexState)
    → (char_at text i == b'.') ≡ true
    → hex_step h i (char_at text i) ≡ refuse
refused text i h e = ap (hex_step h i) ((==_iff (char_at text i) b'.').0 e) ∙ hex_step_dot h i

-- A hexadecimal loop that reaches the first character has passed no '.'.
abbrev NoDot : Bytes → ℕ → Option (ℕ × HexState) → Type 0
NoDot text i none = Unit
NoDot text i (some r) = r.0 ≡ 0 → (k : ℕ) → k ≤ i → (char_at text k == b'.') ≡ false

further-NoDot :
    (text : Bytes) (i : ℕ) (o : Option (ℕ × HexState))
    → (char_at text (suc i) == b'.') ≡ false
    → NoDot text i o
    → NoDot text (suc i) o
further-NoDot text i none e before = tt
further-NoDot text i (some r) e before = λ z k le. elim (Bool-cases (k == suc i)) [
  | inl last ↦ ap (λ n. char_at text n == b'.') ((==_iff k (suc i)).0 last) ∙ e
  | inr other ↦ before z k (ground (arith, other, le))
]

first-NoDot :
    (text : Bytes) (s : HexStep)
    → (char_at text 0 == b'.') ≡ false
    → NoDot text 0
        (elim s [ keep h' ↦ some (zero, h') | quit h' ↦ some (zero, h') | refuse ↦ none ])
first-NoDot text (keep h) e = λ z k le. ap (λ n. char_at text n == b'.') (omega (arith, le)) ∙ e
first-NoDot text (quit h) e = λ z k le. ap (λ n. char_at text n == b'.') (omega (arith, le)) ∙ e
first-NoDot text refuse e = tt

step-NoDot :
    (text : Bytes) (i : ℕ) (s : HexStep)
    → (char_at text (suc i) == b'.') ≡ false
    → ((h : HexState) → NoDot text i (hex_loop text i h))
    → NoDot text
        (suc i)
        (elim s [ keep h' ↦ hex_loop text i h' | quit h' ↦ some (suc i, h') | refuse ↦ none ])
step-NoDot text i (keep h) e before = further-NoDot text i (hex_loop text i h) e (before h)
step-NoDot text i (quit h) e before = λ z. absurd (omega (arith, z))
step-NoDot text i refuse e before = tt

hex_loop-NoDot : (text : Bytes) (i : ℕ) (h : HexState) → NoDot text i (hex_loop text i h)
unfolding hex_loop
hex_loop-NoDot text zero h = elim (Bool-cases (char_at text 0 == b'.')) [
  | inl dot ↦ rw (refused text 0 h dot, NoDot) tt
  | inr other ↦ first-NoDot text (hex_step h 0 (char_at text 0)) other
]
hex_loop-NoDot text (suc i) h = elim (Bool-cases (char_at text (suc i) == b'.')) [
  | inl dot ↦ rw (refused text (suc i) h dot, NoDot) tt
  | inr other ↦
      step-NoDot text i (hex_step h (suc i) (char_at text (suc i))) other (hex_loop-NoDot text i)
]

hex_end_first :
    (text : Bytes) (have_ipv4 : Bool) (j : ℕ) (h : HexState)
    → hex_end text have_ipv4 j h ≡ true
    → j ≡ 0
unfolding hex_end
hex_end_first text have_ipv4 j h e = ground (arith, e)

hex_no_dot :
    (text : Bytes) (i k : ℕ) (have_placeholder have_ipv4 : Bool)
    → hex text i have_placeholder have_ipv4 ≡ true
    → k ≤ i
    → (char_at text k == b'.') ≡ false
unfolding hex
hex_no_dot text i k have_placeholder have_ipv4 =
    accepted (hex_loop text i _) (hex_loop-NoDot text i _)
  where
    accepted :
        (o : Option (ℕ × HexState))
        → NoDot text i o
        → elim o [ none ↦ false | some (j, h) ↦ hex_end text have_ipv4 j h ] ≡ true
        → k ≤ i
        → (char_at text k == b'.') ≡ false
    accepted none n e le = ground arith
    accepted (some (j, h)) n e le = n (hex_end_first text have_ipv4 j h e) k le

inside : (text : Bytes) (k : ℕ) → char_at text k ≡ b'.' → k < length text
inside [] k e = ground (arith, e)
inside (c ∷ text) zero e = omega arith
inside (c ∷ text) (suc k) e = omega (arith, inside text k e)

-- `_S_parse_ipv6_address` accepts a text with a '.' in it, which is one with an IPv4 address, only if it
-- has a "::" too. So an address that writes all of the six groups before its IPv4 address, as
-- "1:2:3:4:5:6:1.2.3.4", is rejected.
pub ipv6_address-DoubleColon :
    (text : Bytes) (k : ℕ) → char_at text k ≡ b'.' → (ipv6_address text).0 ≡ true → DoubleColon text
unfolding ipv6_address
ipv6_address-DoubleColon text k dot e =
    let i = length text - 1 in
    let lt = inside text k dot in
    elim (Bool-cases (length text == 0 || length text == 1)) [
      | inl tiny ↦ absurd (ground (arith, tiny, e))
      | inr large ↦
          let next : suc (i - 1) ≡ i = ground (arith, large) in
          let no_hex : hex text i false false ≡ false = elim (Bool-cases (hex text i false false)) [
            | inl h ↦
                absurd (ground (arith, dot, hex_no_dot text i k false false h (omega (arith, lt))))
            | inr h ↦ h
          ] in
          elim (Bool-cases (char_at text i == b':' && char_at text (i - 1) == b':')) [
            | inl colons ↦ (
              i - 1,
              (==_iff (char_at text (i - 1)) b':').0 (ground (arith, colons)),
              ap (char_at text) next ∙ (==_iff (char_at text i) b':').0 (ground (arith, colons)),
            )
            | inr other ↦
                dec-DoubleColon text (i - 1)
                  (ap (λ n. (dec text n).0) next ∙ ground (arith, large, other, no_hex, e))
          ]
    ]
