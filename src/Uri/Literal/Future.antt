-- ===== src/Uri/Literal/Future.antt =====
-- `_S_parse_ipv_future` beside the grammar of RFC 3986:
-- IPvFuture = "v" 1*HEXDIG "." 1*( unreserved / sub-delims / ":" ), where "v" stands for either case.
pub mod Accepts
pub mod Exact
use impact_socket_set.Base.{
  ℕ, zero, suc, ◌+◌, ◌-◌, ◌≤◌, ◌<◌, Bool, true, false, ◌&&◌, ◌||◌, ltb, ◌==◌, ==_iff, Bool-cases,
  [], ◌∷◌, ◌++◌, Bytes, length, length-append, drop, take, get_or, all_of, ◌≡◌, ◌↔◌, refl, sym, ap,
  subst, ◌∙◌, inl, inr, arith,
}
use impact_socket_set.Abnf.{alpha, digit, hexdig}
use impact_socket_set.Uri.{char_at}
use impact_socket_set.Uri.Chars.{is_alpha, is_digit, is_hexdig, unreserved, sub_delims}
use impact_socket_set.Uri.Literal.{future_char, skip_version, ipv_future}

-- A quoted letter of the grammar stands for either case (RFC 5234, 2.3).
abbrev pub is_v : ℕ → Bool
is_v c = c == b'v' || c == b'V'

-- The grammar, with neither part empty.
pub record IpvFuture (text : Bytes) : Type 0 where
  pub letter : ℕ
  pub first : ℕ
  pub version : Bytes
  pub second : ℕ
  pub address : Bytes
  pub shape : text ≡ letter ∷ first ∷ (version ++ (b'.' ∷ second ∷ address))
  pub letter_v : is_v letter ≡ true
  pub hexadecimal : all_of is_hexdig (first ∷ version) ≡ true
  pub allowed : all_of future_char (second ∷ address) ≡ true

-- The characters behind the index `i` and before `j` are digits.
abbrev pub Run : Bytes → ℕ → ℕ → Type 0
Run text i j = (k : ℕ) → i < k → k < j → is_hexdig (char_at text k) ≡ true

pub skip_version-Run : (fuel : ℕ) (text : Bytes) (i : ℕ) → Run text i (skip_version fuel text i)
unfolding skip_version
skip_version-Run zero text i = λ k lo hi. absurd (omega arith)
skip_version-Run (suc fuel) text i =
    elim (Bool-cases (is_hexdig (char_at text (i + 1)) && ltb (i + 1) (length text - 2))) [
      | inl e ↦
          rw (e, skip_version) (extend (ground (arith, e)) (skip_version-Run fuel text (i + 1)))
      | inr e ↦ rw (e, skip_version) (λ k lo hi. absurd (omega arith))
    ]
  where
    extend : {j : ℕ} → is_hexdig (char_at text (i + 1)) ≡ true → Run text (i + 1) j → Run text i j
    extend digit run k lo hi = elim (Bool-cases (k == i + 1)) [
      | inl e ↦ let next : k ≡ i + 1 = (==_iff k (i + 1)).0 e in rw next digit
      | inr e ↦ run k (ground (arith, e)) hi
    ]

pub skip_version-end :
    (fuel : ℕ) (text : Bytes) (i j : ℕ)
    → i < j
    → j ≤ i + fuel
    → j ≤ length text - 2
    → Run text i j
    → is_hexdig (char_at text j) ≡ false
    → skip_version fuel text i ≡ j
unfolding skip_version
skip_version-end zero text i j lt le h run stop = absurd (omega arith)
skip_version-end (suc fuel) text i j lt le h run stop = elim (Bool-cases (j == i + 1)) [
  | inl e ↦
      let next : j ≡ i + 1 = (==_iff j (i + 1)).0 e in
      let stop' : is_hexdig (char_at text (i + 1)) ≡ false =
        ap (λ k. is_hexdig (char_at text k)) (sym next) ∙ stop in
      rw (stop', skip_version) (sym next)
  | inr e ↦
      let digit : is_hexdig (char_at text (i + 1)) ≡ true =
        run (i + 1) (omega arith) (ground (arith, e)) in
      let inside : ltb (i + 1) (length text - 2) ≡ true = ground (arith, e) in
      rw (digit, inside, skip_version)
        (skip_version-end fuel text (i + 1) j (ground (arith, e)) (omega arith) h
          (λ k lo hi. run k (omega arith) hi) stop)
]

pub skip_version-later : (fuel : ℕ) (text : Bytes) (i : ℕ) → i < skip_version (suc fuel) text i
unfolding skip_version
skip_version-later zero text i = ground arith
skip_version-later (suc fuel) text i = ground (arith, skip_version-later fuel text (i + 1))
