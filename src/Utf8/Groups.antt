-- ===== src/Utf8/Groups.antt =====
-- The texts that `deserialize` reads, described without its state machine: symbols of a leading byte
-- and its trailing bytes, up to the end or to the first byte that does not fit.
use impact_socket_set.Base.{
  ℕ, zero, suc, ◌+◌, ◌-◌, ◌*◌, ◌<◌, ◌≤◌, Bool, true, false, ◌&&◌, ◌||◌, ltb, leb, Bool-cases, List,
  [], ◌∷◌, ◌++◌, Bytes, All, all_of, length, length-append, ◌≡◌, refl, inl, inr, ◌⊎◌, arith,
}
use impact_socket_set.Errno.{ImpErr, success, utf8_badhead, utf8_badtrail}

-- A byte that trails, and one that leads no symbol.
abbrev pub is_trail : ℕ → Bool
is_trail t = leb 0x80 t && ltb t 0xC0

abbrev pub is_stray : ℕ → Bool
is_stray c = is_trail c || leb 0xF8 c

-- A leading byte, the count of bytes that trail it, and what it has of the symbol.
pub data Lead (c : ℕ) : ℕ → ℕ → Type 0 where
  alone : c < 0x80 → Lead c 0 c
  with_one : 0xC0 ≤ c → c < 0xE0 → Lead c 1 (c - 0xC0)
  with_two : 0xE0 ≤ c → c < 0xF0 → Lead c 2 (c - 0xE0)
  with_three : 0xF0 ≤ c → c < 0xF8 → Lead c 3 (c - 0xF0)

-- Each trailing byte puts six bits behind the value.
unfoldable pub value : ℕ → Bytes → ℕ
value v [] = v
value v (t ∷ ts) = value (v * 64 + (t - 0x80)) ts

-- A text, the symbols that can be read from it, and the error that ends them. A symbol that the end
-- cuts short is no error, and neither is one that is too long or a surrogate.
pub data Text : Bytes → List ℕ → ImpErr → Type 0 where
  end_of_text : Text [] [] success
  symbol :
      {c n q : ℕ} (ts rest : Bytes) {cs : List ℕ} {e : ImpErr}
      → Lead c n q
      → all_of is_trail ts ≡ true
      → length ts ≡ n
      → Text rest cs e
      → Text (c ∷ (ts ++ rest)) (value q ts ∷ cs) e
  cut_symbol :
      {c n q : ℕ} (ts : Bytes)
      → Lead c n q
      → all_of is_trail ts ≡ true
      → length ts < n
      → Text (c ∷ ts) [] success
  bad_trail :
      {c n q : ℕ} (ts : Bytes) (b : ℕ) (rest : Bytes)
      → Lead c n q
      → all_of is_trail ts ≡ true
      → length ts < n
      → b < 256
      → is_trail b ≡ false
      → Text (c ∷ (ts ++ (b ∷ rest))) [] utf8_badtrail
  bad_head : (c : ℕ) (rest : Bytes) → c < 256 → is_stray c ≡ true → Text (c ∷ rest) [] utf8_badhead

-- What follows a leading byte that `n` bytes should trail.
data Split (n : ℕ) : Bytes → Type 0 where
  whole : (ts rest : Bytes) → all_of is_trail ts ≡ true → length ts ≡ n → Split n (ts ++ rest)
  short : (ts : Bytes) → all_of is_trail ts ≡ true → length ts < n → Split n ts
  broken :
      (ts : Bytes) (b : ℕ) (rest : Bytes)
      → all_of is_trail ts ≡ true
      → length ts < n
      → is_trail b ≡ false
      → Split n (ts ++ (b ∷ rest))

Split-cons :
    (n t : ℕ) {bytes : Bytes} → is_trail t ≡ true → Split n bytes → Split (suc n) (t ∷ bytes)
Split-cons n t h (whole ts rest all e) = whole (t ∷ ts) rest (ground arith) (omega arith)
Split-cons n t h (short ts all l) = short (t ∷ ts) (ground arith) (omega arith)
Split-cons n t h (broken ts b rest all l other) =
    broken (t ∷ ts) b rest (ground arith) (omega arith) other

split : (n : ℕ) (bytes : Bytes) → Split n bytes
split zero bytes = whole [] bytes refl refl
split (suc n) [] = short [] refl (omega arith)
split (suc n) (t ∷ bytes) = elim (Bool-cases (is_trail t)) [
  | inl trails ↦ Split-cons n t trails (split n bytes)
  | inr other ↦ broken [] t bytes refl (omega arith) other
]

Lead-or_stray : (c : ℕ) → c < 256 → ((n : ℕ) × (q : ℕ) × Lead c n q) ⊎ (is_stray c ≡ true)
Lead-or_stray c h = elim (Bool-cases (ltb c 0x80)) [
  | inl a ↦ inl (0, c, alone (ground arith))
  | inr a ↦ elim (Bool-cases (is_stray c)) [
    | inl s ↦ inr s
    | inr s ↦ elim (Bool-cases (ltb c 0xE0)) [
      | inl b ↦ inl (1, c - 0xC0, with_one (ground arith) (ground arith))
      | inr b ↦ elim (Bool-cases (ltb c 0xF0)) [
        | inl d ↦ inl (2, c - 0xE0, with_two (ground arith) (ground arith))
        | inr d ↦ inl (3, c - 0xF0, with_three (ground arith) (ground arith))
      ]
    ]
  ]
]

All-behind : (xs ys : Bytes) → All (λ c. c < 256) (xs ++ ys) → All (λ c. c < 256) ys
All-behind [] ys all = all
All-behind (x ∷ xs) ys (h, all) = All-behind xs ys all

abbrev IsText : Bytes → Type 0
IsText input = (cs : List ℕ) × (e : ImpErr) × Text input cs e

Text-split :
    (c n q : ℕ) {bytes : Bytes}
    → Lead c n q
    → All (λ b. b < 256) bytes
    → ((rest : Bytes) → length rest ≤ length bytes → All (λ b. b < 256) rest → IsText rest)
    → Split n bytes
    → IsText (c ∷ bytes)
Text-split c n q lead all later (whole ts rest trails e) =
    let (cs, e', text) =
      later rest (omega (arith, length-append ts rest)) (All-behind ts rest all) in
    (value q ts ∷ cs, e', symbol ts rest lead trails e text)
Text-split c n q lead all later (short ts trails l) = ([], success, cut_symbol ts lead trails l)
Text-split c n q lead all later (broken ts b rest trails l other) =
    ([], utf8_badtrail, bad_trail ts b rest lead trails l (All-behind ts (b ∷ rest) all).0 other)

Text-within :
    (size : ℕ) (input : Bytes) → length input ≤ size → All (λ c. c < 256) input → IsText input
Text-within size [] h all = ([], success, end_of_text)
Text-within zero (c ∷ rest) h all = absurd (omega arith)
Text-within (suc size) (c ∷ rest) h (byte, all) = elim (Lead-or_stray c byte) [
  | inl lead ↦
      let (n, q, is_lead) = lead in
      Text-split c n q is_lead all (λ later fewer bytes. Text-within size later (omega arith) bytes)
        (split n rest)
  | inr stray ↦ ([], utf8_badhead, bad_head c rest byte stray)
]

-- The description has a case for each sequence of bytes.
pub every-IsText : (input : Bytes) → All (λ c. c < 256) input → IsText input
every-IsText input all = Text-within (length input) input (omega arith) all
