-- ===== src/Uri/Percent/Decoded.antt =====
-- What `_S_percent_decode` makes of a well-encoded text, beside a description of its own.
use impact_socket_set.Base.{
  ℕ, ◌+◌, ◌-◌, ◌*◌, ◌<◌, within, Bool, true, false, ◌||◌, ◌&&◌, ◌==◌, if◌then◌else◌, some, [], ◌∷◌,
  ◌++◌, Bytes, ◌≡◌, refl, sym, ap, ◌∙◌, arith, append-nil, append_assoc, Bool-cases, inl, inr, ◌^◌,
  ◌%◌, bit_or,
}
use impact_socket_set.Base.Bits.{bit_or_disjoint, ◌<<◌}
use impact_socket_set.Abnf.{hexdig, digit}
use impact_socket_set.Uri.Chars.{reserved, is_hexdig, is_space, tolower, toupper}
use impact_socket_set.Uri.Percent.{
  Mode, plain, percent, nibble, nibble_value, pair_value, pair_output, decode_step, decode_loop,
}

-- The text as `stream >> c` delivers it.
abbrev pub visible : Bytes → Bytes
visible [] = []
visible (c ∷ rest) = if is_space c then visible rest else c ∷ visible rest

-- Every '%' is followed by two hexadecimal digits, behind the characters that `mode` has read.
abbrev pub well_encoded_in : Mode → Bytes → Bool
well_encoded_in plain [] = true
well_encoded_in percent [] = false
well_encoded_in (nibble hi) [] = false
well_encoded_in plain (c ∷ rest) =
    if c == b'%' then well_encoded_in percent rest else well_encoded_in plain rest
well_encoded_in percent (c ∷ rest) = is_hexdig c && well_encoded_in (nibble c) rest
well_encoded_in (nibble hi) (c ∷ rest) = is_hexdig c && well_encoded_in plain rest

abbrev pub well_encoded : Bytes → Bool
well_encoded = well_encoded_in plain

-- The value of a hexadecimal digit.
abbrev hex_value : ℕ → ℕ
hex_value c =
    if within b'0' b'9' c
    then c - b'0'
    else if within b'A' b'F' c
    then c - b'A' + 10
    else c - b'a' + 10

-- What a pair of digits is decoded to: a reserved character and '%' stay encoded, in capitals.
abbrev pub pair_text : ℕ → ℕ → Bytes
pair_text hi lo =
    let n = 16 * hex_value hi + hex_value lo in
    if reserved n || n == b'%' then b'%' ∷ toupper hi ∷ toupper lo ∷ [] else n ∷ []

-- The decoded text, behind the characters that `mode` has read.
abbrev pub decoded_in : Bool → Mode → Bytes → Bytes
decoded_in lower mode [] = []
decoded_in lower plain (c ∷ rest) =
    if c == b'%'
    then decoded_in lower percent rest
    else (if lower then tolower c else c) ∷ decoded_in lower plain rest
decoded_in lower percent (c ∷ rest) = decoded_in lower (nibble c) rest
decoded_in lower (nibble hi) (c ∷ rest) = pair_text hi c ++ decoded_in lower plain rest

abbrev pub decoded : Bool → Bytes → Bytes
decoded lower = decoded_in lower plain

-- What the loop has read of a pair is a digit in capitals.
abbrev Read : Mode → Mode → Type 0
Read plain plain = Unit
Read percent percent = Unit
Read (nibble a) (nibble b) = (a ≡ toupper b) × (is_hexdig b ≡ true)
Read _ _ = ⊥

digit_value :
    (c : ℕ) → is_hexdig c ≡ true → (nibble_value (toupper c) ≡ hex_value c) × (hex_value c < 16)
unfolding is_hexdig hexdig digit toupper
digit_value c h = (ground (arith, h), ground (arith, h))

together : (a b : ℕ) → a < 16 → b < 16 → bit_or (bit_or 0 a << 4 % 2 ^ 8) b ≡ 16 * a + b
together a b ha hb =
    let alone : bit_or 0 a ≡ a = bit_or_disjoint 4 0 a ha ∙ omega arith in
    let small : a * 16 % 2 ^ 8 ≡ a * 16 = omega (arith, ha) in
    ap (λ n. bit_or (n * 16 % 2 ^ 8) b) alone
    ∙ ap (λ n. bit_or n b) small
    ∙ bit_or_disjoint 4 a b hb
    ∙ omega arith

pair_output-pair_text :
    (hi lo : ℕ)
    → is_hexdig hi ≡ true
    → is_hexdig lo ≡ true
    → pair_output (toupper hi) (toupper lo) ≡ pair_text hi lo
unfolding pair_output pair_value
pair_output-pair_text hi lo h l =
    let (a, a16) = digit_value hi h in
    let (b, b16) = digit_value lo l in
    let value : pair_value (toupper hi) (toupper lo) ≡ 16 * hex_value hi + hex_value lo =
      ap (λ n. bit_or (bit_or 0 n << 4 % 2 ^ 8) (nibble_value (toupper lo))) a
      ∙ ap (λ n. bit_or (bit_or 0 (hex_value hi) << 4 % 2 ^ 8) n) b
      ∙ together (hex_value hi) (hex_value lo) a16 b16 in
    ap (λ n. if reserved n || n == b'%' then b'%' ∷ toupper hi ∷ toupper lo ∷ [] else n ∷ []) value

loop_space :
    (lower : Bool) (mode : Mode) (c : ℕ) (rest os : Bytes)
    → is_space c ≡ true
    → decode_loop lower mode (c ∷ rest) os ≡ decode_loop lower mode rest os
unfolding decode_loop
loop_space lower plain c rest os e = rw (e, decode_loop) refl
loop_space lower percent c rest os e = rw (e, decode_loop) refl
loop_space lower (nibble hi) c rest os e = rw (e, decode_loop) refl

loop_step :
    (lower : Bool) (mode mode' : Mode) (c : ℕ) (rest os bytes : Bytes)
    → is_space c ≡ false
    → decode_step lower mode c ≡ some (mode', bytes)
    → decode_loop lower mode (c ∷ rest) os ≡ decode_loop lower mode' rest (os ++ bytes)
unfolding decode_loop
loop_step lower plain mode' c rest os bytes e f = rw (e, f, decode_loop) refl
loop_step lower percent mode' c rest os bytes e f = rw (e, f, decode_loop) refl
loop_step lower (nibble hi) mode' c rest os bytes e f = rw (e, f, decode_loop) refl

-- What one visible character does, in the code and in the description.
step_decoded :
    (lower : Bool) (mode described : Mode) (c : ℕ) (rest : Bytes)
    → Read mode described
    → well_encoded_in described (c ∷ rest) ≡ true
    → (mode' : Mode) × (described' : Mode) × (bytes : Bytes) × (decode_step lower mode c
        ≡ some (mode', bytes))
      × Read mode' described'
      × (well_encoded_in described' rest ≡ true)
      × (decoded_in lower described (c ∷ rest) ≡ bytes ++ decoded_in lower described' rest)
unfolding decode_step
step_decoded lower plain plain c rest r w = elim (Bool-cases (c == b'%')) [
  | inl e ↦ (percent, percent, [], rw e refl, tt, ground (arith, e, w), rw e refl)
  | inr e ↦ (
    plain,
    plain,
    (if lower then tolower c else c) ∷ [],
    rw e refl,
    tt,
    ground (arith, e, w),
    rw e refl,
  )
]
step_decoded lower percent percent c rest r w =
    let h : is_hexdig c ≡ true = ground (arith, w) in
    (nibble (toupper c), nibble c, [], rw h refl, (refl, h), ground (arith, w), refl)
step_decoded lower (nibble a) (nibble b) c rest (e, hb) w =
    let h : is_hexdig c ≡ true = ground (arith, w) in
    (
      plain,
      plain,
      pair_text b c,
      rw h (
          ap (λ t. some (plain, t))
            (ap (λ n. pair_output n (toupper c)) e ∙ pair_output-pair_text b c hb h)),
      tt,
      ground (arith, w),
      refl,
    )
step_decoded lower plain percent c rest r w = elim r [ ]
step_decoded lower plain (nibble b) c rest r w = elim r [ ]
step_decoded lower percent plain c rest r w = elim r [ ]
step_decoded lower percent (nibble b) c rest r w = elim r [ ]
step_decoded lower (nibble a) plain c rest r w = elim r [ ]
step_decoded lower (nibble a) percent c rest r w = elim r [ ]

pub decode_loop-decoded :
    (lower : Bool) (mode described : Mode) (text os : Bytes)
    → Read mode described
    → well_encoded_in described (visible text) ≡ true
    → decode_loop lower mode text os ≡ some (os ++ decoded_in lower described (visible text))
unfolding decode_loop
decode_loop-decoded lower plain plain [] os r w = ap some (sym (append-nil os))
decode_loop-decoded lower mode percent [] os r w = cc
decode_loop-decoded lower mode (nibble b) [] os r w = cc
decode_loop-decoded lower percent plain [] os r w = elim r [ ]
decode_loop-decoded lower (nibble a) plain [] os r w = elim r [ ]
decode_loop-decoded lower mode described (c ∷ rest) os r w = elim (Bool-cases (is_space c)) [
  | inl e ↦
      let skipped : visible (c ∷ rest) ≡ visible rest = rw e refl in
      loop_space lower mode c rest os e
      ∙ decode_loop-decoded lower mode described rest os r
          (ap (well_encoded_in described) (sym skipped) ∙ w)
      ∙ ap (λ t. some (os ++ decoded_in lower described t)) (sym skipped)
  | inr e ↦
      let seen : visible (c ∷ rest) ≡ c ∷ visible rest = rw e refl in
      let (mode', described', bytes, one, r', w', d) =
        step_decoded lower mode described c (visible rest) r
          (ap (well_encoded_in described) (sym seen) ∙ w) in
      loop_step lower mode mode' c rest os bytes e one
      ∙ decode_loop-decoded lower mode' described' rest (os ++ bytes) r' w'
      ∙ ap some (append_assoc os bytes (decoded_in lower described' (visible rest)))
      ∙ ap (λ t. some (os ++ t)) (sym d)
      ∙ ap (λ t. some (os ++ decoded_in lower described t)) (sym seen)
]
