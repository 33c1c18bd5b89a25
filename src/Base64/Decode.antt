-- ===== src/Base64/Decode.antt =====
-- What `decode` does with any text: the symbols that it takes, and its two errors.
use impact_socket_set.Base.{
  ℕ, ◌+◌, ◌*◌, ◌/◌, ◌%◌, ◌^◌, ◌<◌, Bool, true, false, ◌==◌, if◌then◌else◌, Option, [], ◌∷◌, ◌++◌,
  Bytes, IsByte, All, length, ◌≡◌, ◌≢◌, refl, sym, ◌∙◌, arith, not, all_of, ◌&&◌, ◌||◌, none, some,
  leb, Bool-cases, inl, inr,
}
use mathlib.Core.Path.{subst}
use impact_socket_set.Base.Bits.{bit_or_disjoint, bit_and_low}
use impact_socket_set.Base.Table.{holds_below, agree_below, holds_below-at}
use impact_socket_set.Errno.{Answer, success, b64_badsym, b64_badpad}
use impact_socket_set.Base64.{
  alphabet, reverse_lookup, Decoder, fresh, push_symbol, run_decode, unpad_stream, decode_symbols,
  decode,
}

lookup_table : holds_below (λ i. reverse_lookup (alphabet i) == i) 64 ≡ true
unfolding holds_below alphabet reverse_lookup
lookup_table = refl

-- `_S_reverse_lookup` gives back every index below 64 of the alphabet.
pub reverse_lookup-alphabet : (i : ℕ) → i < 64 → reverse_lookup (alphabet i) ≡ i
reverse_lookup-alphabet i h =
    agree_below 64 (λ i. reverse_lookup (alphabet i)) (λ i. i) lookup_table i h

symbol_table : holds_below (λ i. not (alphabet i == b'=')) 64 ≡ true
unfolding holds_below alphabet
symbol_table = refl

alphabet-ne-pad : (i : ℕ) → i < 64 → (alphabet i == b'=') ≡ false
alphabet-ne-pad i h =
    ground (arith, holds_below-at (λ i. not (alphabet i == b'=')) 64 symbol_table i h)

-- One symbol of the alphabet is one call of `push_symbol`.
pub run_decode-alphabet :
    (i : ℕ) (rest : Bytes) (d : Decoder)
    → i < 64
    → run_decode (alphabet i ∷ rest) d ≡ run_decode rest (push_symbol d i)
unfolding run_decode
run_decode-alphabet i rest d h = ground (arith, alphabet-ne-pad i h, reverse_lookup-alphabet i h)

-- The register after the symbol `c`, while the group is not full.
abbrev pub grown : Decoder → ℕ → Decoder
grown d c = record d { tally = d.tally + 1; reg24 = (d.reg24 + c) * 64 }

pub push_symbol-grown :
    (d : Decoder) (q c : ℕ)
    → d.tally < 3
    → d.reg24 ≡ q * 64
    → q < 2 ^ 18
    → c < 64
    → push_symbol d c ≡ grown d c
unfolding push_symbol
push_symbol-grown d q c ht hq hb hc = ground (arith, bit_or_disjoint 6 q c hc)

pub push_symbol_full :
    (d : Decoder) (q c : ℕ)
    → d.tally ≡ 3
    → d.reg24 ≡ q * 64
    → q < 2 ^ 18
    → c < 64
    → push_symbol d c ≡ record d {
      stream = d.stream ++ (q / 2 ^ 10) ∷ (q / 4 % 256) ∷ (q % 4 * 64 + c) ∷ [];
      tally = 0;
      reg24 = 0;
    }
unfolding push_symbol
push_symbol_full d q c ht hq hb hc = ground (
  arith,
  bit_or_disjoint 6 q c hc,
  bit_and_low 8 (q * 64 + c),
  bit_and_low 8 ((q * 64 + c) / 2 ^ 8),
)

abbrev same_bool : Bool → Bool → Bool
same_bool true b = b
same_bool false b = not b

-- A character of the alphabet, by its 64 places.
unfoldable pub in_alphabet : ℕ → Bool
in_alphabet c = not (holds_below (λ i. not (alphabet i == c)) 64)

in_alphabet_table :
    holds_below (λ c. same_bool (reverse_lookup c == 0x40) (not (in_alphabet c))) 256 ≡ true
unfolding holds_below reverse_lookup in_alphabet alphabet
in_alphabet_table = refl

same_bool-eq : (a b : Bool) → same_bool a b ≡ true → a ≡ b
same_bool-eq true b h = sym h
same_bool-eq false b h = ground arith

reverse_lookup_rejects : (c : ℕ) → c < 256 → (reverse_lookup c == 0x40) ≡ not (in_alphabet c)
reverse_lookup_rejects c h = same_bool-eq _ _ (
    holds_below-at (λ c. same_bool (reverse_lookup c == 0x40) (not (in_alphabet c))) 256
      in_alphabet_table c h)

-- A character that `decode` takes: one of the alphabet, or the padding character.
abbrev pub is_base64 : ℕ → Bool
is_base64 c = c == b'=' || in_alphabet c

-- How many characters of a text are no padding characters.
abbrev pub symbols : Bytes → ℕ
symbols [] = 0
symbols (c ∷ rest) = (if c == b'=' then 0 else 1) + symbols rest

-- How many of the last two characters are padding characters.
abbrev pub pads : Bytes → ℕ
pads [] = 0
pads (c ∷ rest) = (if c == b'=' && leb (length (c ∷ rest)) 2 then 1 else 0) + pads rest

push_symbol_tally :
    (d : Decoder) (c : ℕ)
    → d.tally < 4
    → ((push_symbol d c).tally ≡ (d.tally + 1) % 4) × ((push_symbol d c).padding ≡ d.padding)
unfolding push_symbol
push_symbol_tally d c h = (ground arith, ground arith)

run_decode_badsym :
    (text : Bytes) (d : Decoder)
    → All IsByte text
    → all_of is_base64 text ≡ false
    → run_decode text d ≡ none
unfolding run_decode
run_decode_badsym [] d h e = cc
run_decode_badsym (c ∷ rest) d (hc, h) e = ground (
  arith,
  reverse_lookup_rejects c hc,
  run_decode_badsym rest d h,
  run_decode_badsym rest (record d { padding = d.padding + 1 }) h,
  run_decode_badsym rest (push_symbol d (reverse_lookup c)) h,
)

-- What is left in the registers when every character was taken.
record Ends (text : Bytes) (d : Decoder) : Type 0 where
  last : Decoder
  runs : run_decode text d ≡ some last
  tally_is : last.tally ≡ (d.tally + symbols text) % 4
  padding_is : last.padding ≡ d.padding + pads text

-- One character: the loop goes on in the state `d'`.
Ends-cons :
    {c : ℕ} {rest : Bytes} {d : Decoder} (d' : Decoder)
    → run_decode (c ∷ rest) d ≡ run_decode rest d'
    → (d'.tally + symbols rest) % 4 ≡ (d.tally + symbols (c ∷ rest)) % 4
    → d'.padding + pads rest ≡ d.padding + pads (c ∷ rest)
    → Ends rest d'
    → Ends (c ∷ rest) d
Ends-cons d' e t p ends = record {
  last = ends.last;
  runs = e ∙ ends.runs;
  tally_is = ends.tally_is ∙ t;
  padding_is = ends.padding_is ∙ p;
}

run_decode-Ends :
    (text : Bytes) (d : Decoder)
    → All IsByte text
    → all_of is_base64 text ≡ true
    → d.tally < 4
    → Ends text d
run_decode-Ends [] d h e t = record {
  last = d;
  runs = unfold run_decode in refl;
  tally_is = omega arith;
  padding_is = omega arith;
}
run_decode-Ends (c ∷ rest) d (hc, h) e t = elim (Bool-cases (c == b'=')) [
  | inl pad ↦ elim (Bool-cases (leb (length (c ∷ rest)) 2)) [
    | inl near ↦
        let d' : Decoder = record d { padding = d.padding + 1 } in
        Ends-cons d' (unfold run_decode in rw (pad, near)) (ground arith) (ground arith)
          (run_decode-Ends rest d' h (ground arith) t)
    | inr far ↦
        Ends-cons d (unfold run_decode in rw (pad, far)) (ground arith) (ground arith)
          (run_decode-Ends rest d h (ground arith) t)
  ]
  | inr other ↦
      let d' : Decoder = push_symbol d (reverse_lookup c) in
      let tally = push_symbol_tally d (reverse_lookup c) t in
      let taken : (reverse_lookup c == 0x40) ≡ false =
        ground (arith, reverse_lookup_rejects c hc) in
      Ends-cons d' (unfold run_decode in rw (other, taken)) (ground (arith, tally))
        (ground (arith, tally)) (run_decode-Ends rest d' h (ground arith) (omega (arith, tally.0)))
]

-- A text with a character outside the alphabet is rejected, and the output is left alone.
decode_badsym :
    (text : Bytes) (result : Option Bytes)
    → All IsByte text
    → all_of is_base64 text ≡ false
    → decode text result ≡ record { accepted = false; errno = b64_badsym; out = result }
unfolding decode
decode_badsym [] result h e = cc
decode_badsym (c ∷ rest) result h e = ground (arith, run_decode_badsym (c ∷ rest) fresh h e)

-- The end of `decode`, by the number of characters in the last group.
abbrev pub Judged : ℕ → Option Bytes → Answer (Option Bytes) → Type 0
Judged n result answer =
    (answer.accepted ≡ (n == 0 || n == 4))
    × (answer.errno ≡ (if answer.accepted then success else b64_badpad))
    × (answer.accepted ≡ false → answer.out ≡ result)

decode_symbols-Judged :
    (d : Decoder) (result : Option Bytes)
    → Judged (d.padding + d.tally) result (decode_symbols (some d) result)
unfolding decode_symbols unpad_stream
decode_symbols-Judged d result = (ground arith, ground arith, λ e. ground arith)

decode_runs :
    (c : ℕ) (rest : Bytes) (result : Option Bytes)
    → decode (c ∷ rest) result ≡ decode_symbols (run_decode (c ∷ rest) fresh) result
unfolding decode
decode_runs c rest result = ground arith

-- Otherwise `decode` counts: `n` padding characters among the last two and `t` characters of the
-- alphabet are accepted exactly if `n + t % 4` is 0 or 4. A rejection sets B64_BADPAD and leaves
-- the output alone.
pub decode_counts :
    (text : Bytes) (result : Option Bytes)
    → All IsByte text
    → text ≢ []
    → all_of is_base64 text ≡ true
    → Judged (pads text + symbols text % 4) result (decode text result)
decode_counts [] result h ne e = absurd (ne refl)
decode_counts (c ∷ rest) result h ne e =
    let ends = run_decode-Ends (c ∷ rest) fresh h e (omega arith) in
    let n : ends.last.padding + ends.last.tally ≡ pads (c ∷ rest) + symbols (c ∷ rest) % 4 =
      omega (arith, ends.padding_is, ends.tally_is) in
    rw (decode_runs c rest result, ends.runs)
      (subst (λ k. Judged k result (decode_symbols (some ends.last) result)) n
        (decode_symbols-Judged ends.last result))
