-- ===== src/Base64/RoundTrip.antt =====
-- `decode` reads back what `encode` wrote.
use impact_socket_set.Base.{
  ℕ, ◌+◌, ◌*◌, ◌/◌, ◌%◌, ◌^◌, ◌<◌, true, Option, some, [], ◌∷◌, ◌++◌, append-nil, append_assoc,
  Bytes, IsByte, All, length, ◌≡◌, ◌≢◌, refl, sym, ap, ◌∙◌, arith,
}
use impact_socket_set.Base.Bits.{bit_and_low}
use impact_socket_set.Errno.{success}
use impact_socket_set.Base64.{
  alphabet, Decoder, push_symbol, run_decode, unpad_stream, decode_symbols, encode, decode, store,
}
use impact_socket_set.Base64.Text.{quad, text_of}
use impact_socket_set.Base64.Encode.{encode-text_of}
use impact_socket_set.Base64.Decode.{
  run_decode-alphabet, grown, push_symbol-grown, push_symbol_full,
}

-- Between two groups only the stream is not 0.
abbrev at : Bytes → Decoder
at stream = record { stream = stream; padding = 0; tally = 0; reg24 = 0 }

run_decode_one :
    (d : Decoder) (q i : ℕ) (rest : Bytes)
    → d.tally < 3
    → d.reg24 ≡ q * 64
    → q < 2 ^ 18
    → i < 64
    → run_decode (alphabet i ∷ rest) d ≡ run_decode rest (grown d i)
run_decode_one d q i rest ht hq hb hi =
    run_decode-alphabet i rest d hi ∙ ap (run_decode rest) (push_symbol-grown d q i ht hq hb hi)

abbrev after_two : Bytes → ℕ → ℕ → Decoder
after_two stream w x = grown (grown (at stream) w) x

run_decode_two :
    (stream : Bytes) (w x : ℕ) (rest : Bytes)
    → w < 64
    → x < 64
    → run_decode (alphabet w ∷ alphabet x ∷ rest) (at stream)
      ≡ run_decode rest (after_two stream w x)
run_decode_two stream w x rest hw hx =
    run_decode_one (at stream) 0 w (alphabet x ∷ rest) (omega arith) (omega arith) (omega arith) hw
    ∙ run_decode_one (grown (at stream) w) w x rest (omega arith) (omega arith) (omega arith) hx

run_decode_three :
    (stream : Bytes) (w x y : ℕ) (rest : Bytes)
    → w < 64
    → x < 64
    → y < 64
    → run_decode (alphabet w ∷ alphabet x ∷ alphabet y ∷ rest) (at stream)
      ≡ run_decode rest (grown (after_two stream w x) y)
run_decode_three stream w x y rest hw hx hy =
    run_decode_two stream w x (alphabet y ∷ rest) hw hx
    ∙ run_decode_one (after_two stream w x) (w * 64 + x) y rest (omega arith) (omega arith)
        (omega arith) hy

run_decode-quad :
    (a b c : ℕ) (rest stream : Bytes)
    → a < 256
    → b < 256
    → c < 256
    → run_decode (quad a b c ++ rest) (at stream)
      ≡ run_decode rest (at (stream ++ (a ∷ b ∷ c ∷ [])))
run_decode-quad a b c rest stream ha hb hc =
    let w = a / 4 in
    let x = a % 4 * 16 + b / 16 in
    let y = b % 16 * 4 + c / 64 in
    let z = c % 64 in
    let full : push_symbol (grown (after_two stream w x) y) z ≡ at (stream ++ (a ∷ b ∷ c ∷ [])) =
      ground (
        arith,
        push_symbol_full (grown (after_two stream w x) y) ((w * 64 + x) * 64 + y) z (omega arith)
            (omega arith) (omega arith) (omega arith),
      ) in
    run_decode_three stream w x y (alphabet z ∷ rest) (omega arith) (omega arith) (omega arith)
    ∙ run_decode-alphabet z rest (grown (after_two stream w x) y) (omega arith)
    ∙ ap (run_decode rest) full

-- The last group of one byte, and of two, behind its padding.
unpad_one :
    (stream : Bytes) (a : ℕ)
    → a < 256
    → unpad_stream (record (after_two stream (a / 4) (a % 4 * 16)) { padding = 2 })
      ≡ some (stream ++ (a ∷ []))
unfolding unpad_stream
unpad_one stream a h = ground arith

abbrev after_three : Bytes → ℕ → ℕ → Decoder
after_three stream a b = grown (after_two stream (a / 4) (a % 4 * 16 + b / 16)) (b % 16 * 4)

unpad_two :
    (stream : Bytes) (a b : ℕ)
    → a < 256
    → b < 256
    → unpad_stream (record (after_three stream a b) { padding = 1 }) ≡ some (stream ++ (a ∷ b ∷ []))
unfolding unpad_stream
unpad_two stream a b h k =
    let r = ((a / 4 * 64 + (a % 4 * 16 + b / 16)) * 64 + b % 16 * 4) * 64 in
    ground (arith, bit_and_low 8 (r / 2 ^ 8), append_assoc stream (a ∷ []) (b ∷ []))

-- `decode` on the text of any bytes.
run_decode-text_of :
    (bytes stream : Bytes)
    → All IsByte bytes
    → (d : Decoder) × (run_decode (text_of bytes) (at stream) ≡ some d)
      × (unpad_stream d ≡ some (stream ++ bytes))
run_decode-text_of [] stream h =
    (at stream, unfold run_decode in refl, unfold unpad_stream in ap some (sym (append-nil stream)))
run_decode-text_of (a ∷ []) stream h = (
  record (after_two stream (a / 4) (a % 4 * 16)) { padding = 2 },
  run_decode_two stream (a / 4) (a % 4 * 16) (b'=' ∷ b'=' ∷ []) (omega arith) (omega arith)
      ∙ unfold run_decode in refl,
  unpad_one stream a h.0,
)
run_decode-text_of (a ∷ b ∷ []) stream h = (
  record (after_three stream a b) { padding = 1 },
  run_decode_three stream (a / 4) (a % 4 * 16 + b / 16) (b % 16 * 4) (b'=' ∷ []) (omega arith)
        (omega arith) (omega arith)
      ∙ unfold run_decode in refl,
  unpad_two stream a b h.0 h.1.0,
)
run_decode-text_of (a ∷ b ∷ c ∷ rest) stream (ha, (hb, (hc, h))) =
    let (d, runs, unpads) = run_decode-text_of rest (stream ++ (a ∷ b ∷ c ∷ [])) h in
    (
      d,
      run_decode-quad a b c (text_of rest) stream ha hb hc ∙ runs,
      unpads ∙ ap some (append_assoc stream (a ∷ b ∷ c ∷ []) rest),
    )

text_of-ne-nil : (bytes : Bytes) → bytes ≢ [] → length (text_of bytes) ≢ 0
text_of-ne-nil [] ne = absurd (ne refl)
text_of-ne-nil (a ∷ []) ne = omega arith
text_of-ne-nil (a ∷ b ∷ []) ne = omega arith
text_of-ne-nil (a ∷ b ∷ c ∷ rest) ne = omega arith

pub decode-text_of :
    (bytes : Bytes) (result : Option Bytes)
    → All IsByte bytes
    → bytes ≢ []
    → decode (text_of bytes) result
      ≡ record { accepted = true; errno = success; out = store result bytes }
unfolding decode decode_symbols
decode-text_of bytes result h ne =
    let (d, runs, unpads) = run_decode-text_of bytes [] h in
    ground (arith, text_of-ne-nil bytes ne, runs, unpads)

-- Bytes that are encoded and then decoded come back: both calls accept, and the second stores
-- what the first was given. The input is not empty, and neither output pointer is null.
pub decode-encode :
    (bytes old old' : Bytes)
    → All IsByte bytes
    → bytes ≢ []
    → (text : Bytes) × (encode bytes (some old)
        ≡ record { accepted = true; errno = success; out = some text })
      × (decode text (some old') ≡ record { accepted = true; errno = success; out = some bytes })
decode-encode bytes old old' h ne =
    (text_of bytes, encode-text_of bytes (some old) h ne, decode-text_of bytes (some old') h ne)
