-- ===== src/Utf8/Steps.antt =====
-- What one byte does in each state of `deserialize`.
use impact_socket_set.Base.{
  ℕ, suc, ◌+◌, ◌*◌, ◌/◌, ◌^◌, ◌<◌, ◌==◌, leb, if◌then◌else◌, Option, List, [], ◌∷◌, Bytes, ◌≡◌, ◌∙◌,
  arith, Bool-cases, inl, inr,
}
use impact_socket_set.Base.Bits.{bit_or_disjoint, bit_and_low, bit_and_comm, bit_and_field}
use impact_socket_set.Utf8.{Reader, next, push_all, step, read}
use impact_socket_set.Utf8.Table.{trail, utf8_of}

pub step_ascii :
    (c symbol : ℕ) (result : Option (List ℕ))
    → c < 0x80
    → step (record { state = 0; symbol = symbol; result = result }) c
      ≡ next (record { state = 0; symbol = c; result = push_all result (c ∷ []) })
unfolding step
step_ascii c symbol result h = ground (arith, bit_and_field 7 1 c)

pub step_header_1 :
    (q symbol : ℕ) (result : Option (List ℕ))
    → q < 32
    → step (record { state = 0; symbol = symbol; result = result }) (0xC0 + q)
      ≡ next (record { state = 1; symbol = q; result = result })
unfolding step
step_header_1 q symbol result h = ground (
  arith,
  bit_and_field 7 1 (0xC0 + q),
  bit_and_field 5 3 (0xC0 + q),
  bit_and_comm 31 (0xC0 + q),
  bit_and_low 5 (0xC0 + q),
)

pub step_header_2 :
    (q symbol : ℕ) (result : Option (List ℕ))
    → q < 16
    → step (record { state = 0; symbol = symbol; result = result }) (0xE0 + q)
      ≡ next (record { state = 2; symbol = q; result = result })
unfolding step
step_header_2 q symbol result h = ground (
  arith,
  bit_and_field 7 1 (0xE0 + q),
  bit_and_field 5 3 (0xE0 + q),
  bit_and_field 4 4 (0xE0 + q),
  bit_and_comm 15 (0xE0 + q),
  bit_and_low 4 (0xE0 + q),
)

pub step_header_3 :
    (q symbol : ℕ) (result : Option (List ℕ))
    → q < 8
    → step (record { state = 0; symbol = symbol; result = result }) (0xF0 + q)
      ≡ next (record { state = 3; symbol = q; result = result })
unfolding step
step_header_3 q symbol result h = ground (
  arith,
  bit_and_field 7 1 (0xF0 + q),
  bit_and_field 5 3 (0xF0 + q),
  bit_and_field 4 4 (0xF0 + q),
  bit_and_field 3 5 (0xF0 + q),
  bit_and_comm 7 (0xF0 + q),
  bit_and_low 3 (0xF0 + q),
)

-- A trailer puts six bits behind the symbol; the last one pushes it back.
pub step_trailer :
    (n symbol low : ℕ) (result : Option (List ℕ))
    → symbol < 2 ^ 26
    → low < 64
    → step (record { state = suc n; symbol = symbol; result = result }) (0x80 + low)
      ≡ next (record {
        state = n;
        symbol = symbol * 64 + low;
        result = if n == 0 then push_all result ((symbol * 64 + low) ∷ []) else result;
      })
unfolding step
step_trailer n symbol low result hs hl = ground (
  arith,
  bit_and_field 6 2 (0x80 + low),
  bit_and_comm 63 (0x80 + low),
  bit_and_low 6 (0x80 + low),
  bit_or_disjoint 6 symbol low,
)

-- Between two symbols the state is 0.
abbrev pub ready : ℕ → Option (List ℕ) → Reader
ready symbol result = record { state = 0; symbol = symbol; result = result }

pub read-next :
    (c : ℕ) (rest : Bytes) (r r' : Reader) → step r c ≡ next r' → read (c ∷ rest) r ≡ read rest r'
unfolding read
read-next c rest r r' e = rw (e, read)

-- The header of a symbol, and then each trailer.
pub data Shape (c : ℕ) : Bytes → Type 0 where
  one : c < 0x80 → Shape c (c ∷ [])
  two : c < 0x800 → Shape c ((0xC0 + c / 2 ^ 6) ∷ trail 0 c ∷ [])
  three : c < 0x10000 → Shape c ((0xE0 + c / 2 ^ 12) ∷ trail 6 c ∷ trail 0 c ∷ [])
  four : c < 0x110000 → Shape c ((0xF0 + c / 2 ^ 18) ∷ trail 12 c ∷ trail 6 c ∷ trail 0 c ∷ [])

pub utf8_of-Shape : (c : ℕ) → c < 0x110000 → Shape c (utf8_of c)
unfolding utf8_of
utf8_of-Shape c h = elim (Bool-cases (leb c 0x7F)) [
  | inl a ↦ rw a (one (ground arith))
  | inr a ↦ elim (Bool-cases (leb c 0x7FF)) [
    | inl b ↦ rw (a, b) (two (ground arith))
    | inr b ↦ elim (Bool-cases (leb c 0xFFFF)) [
      | inl d ↦ rw (a, b, d) (three (ground arith))
      | inr d ↦ rw (a, b, d) (four h)
    ]
  ]
]

-- One trailer that is not the last.
pub read_trailer :
    (n symbol low : ℕ) (rest : Bytes) (result : Option (List ℕ))
    → symbol < 2 ^ 26
    → low < 64
    → read ((0x80 + low) ∷ rest) (record { state = suc (suc n); symbol = symbol; result = result })
      ≡ read rest (record { state = suc n; symbol = symbol * 64 + low; result = result })
read_trailer n symbol low rest result hs hl =
    read-next _ rest _ _ (step_trailer (suc n) symbol low result hs hl ∙ ground arith)

pub read_last :
    (symbol low : ℕ) (rest : Bytes) (result : Option (List ℕ))
    → symbol < 2 ^ 26
    → low < 64
    → read ((0x80 + low) ∷ rest) (record { state = 1; symbol = symbol; result = result })
      ≡ read rest (ready (symbol * 64 + low) (push_all result ((symbol * 64 + low) ∷ [])))
read_last symbol low rest result hs hl =
    read-next _ rest _ _ (step_trailer 0 symbol low result hs hl)
