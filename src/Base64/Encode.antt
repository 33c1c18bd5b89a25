-- ===== src/Base64/Encode.antt =====
-- `encode` writes the text of RFC 4648.
use impact_socket_set.Base.{
  ℕ, suc, ◌+◌, ◌-◌, ◌*◌, ◌/◌, ◌%◌, ◌^◌, ◌<◌, bit_and, bit_or, true, ◌==◌, Option, [], ◌∷◌, ◌++◌,
  append-nil, append_assoc, Bytes, IsByte, All, length, replicate, ◌≡◌, ◌≢◌, refl, sym, ap, ◌∙◌,
  arith,
}
use impact_socket_set.Base.Bits.{◌<<◌, ◌>>◌, bit_or_disjoint, bit_and_low}
use impact_socket_set.Base.Table.{holds_below, agree_below}
use impact_socket_set.Errno.{success}
use impact_socket_set.Base64.{
  fill_symbols, shift_symbols, run_encode, pad_count, k_pad, write_symbols, pad_bytes, pad_stream,
  encode, store,
}
use impact_socket_set.Base64.Text.{quad, text_of}

mask_byte_table : holds_below (λ a. bit_and 0xFF a == a) 256 ≡ true
unfolding holds_below
mask_byte_table = refl

mask_byte : (a : ℕ) → a < 256 → bit_and 0xFF a ≡ a
mask_byte a h = agree_below 256 (λ a. bit_and 0xFF a) (λ a. a) mask_byte_table a h

-- Three bytes in one register.
register :
    (a b c : ℕ)
    → a < 256
    → b < 256
    → c < 256
    → bit_or (bit_or (bit_and 0xFF a << 16) (bit_and 0xFF b << 8)) (bit_and 0xFF c)
      ≡ a * 2 ^ 16 + b * 2 ^ 8 + c
register a b c ha hb hc =
    let high : bit_or (a << 16) (b << 8) ≡ (a * 2 ^ 8 + b) << 8 =
      omega (arith, bit_or_disjoint 16 a (b << 8) (omega arith)) in
    rw (mask_byte a ha, mask_byte b hb, mask_byte c hc, high)
      (omega (arith, bit_or_disjoint 8 (a * 2 ^ 8 + b) c hc))

low_six : (a : ℕ) → bit_and a 0x3F ≡ a % 64
low_six a = bit_and_low 6 a

fill_symbols_quad :
    (a b c : ℕ)
    → a < 256
    → b < 256
    → c < 256
    → fill_symbols 4 (a * 2 ^ 16 + b * 2 ^ 8 + c) []
      ≡ (a / 4) ∷ (a % 4 * 16 + b / 16) ∷ (b % 16 * 4 + c / 64) ∷ (c % 64) ∷ []
fill_symbols_quad a b c ha hb hc = simp low_six (ground arith)

pad_count_skip : (a b c : ℕ) (rest : Bytes) → pad_count (a ∷ b ∷ c ∷ rest) ≡ pad_count rest
pad_count_skip a b c rest = omega arith

pad_stream_skip :
    (a b c : ℕ) (rest stream : Bytes)
    → pad_stream (a ∷ b ∷ c ∷ rest) stream ≡ pad_stream rest stream
unfolding pad_stream
pad_stream_skip a b c [] stream = unfold pad_bytes in refl
pad_stream_skip a b c (x ∷ xs) stream =
    let bytes : Bytes = x ∷ xs in
    let first : length (a ∷ b ∷ c ∷ bytes) + pad_count bytes - 3
        ≡ suc (suc (suc (length bytes + pad_count bytes - 3))) =
      omega arith in
    let last : length (a ∷ b ∷ c ∷ bytes) - 1 ≡ suc (suc (suc (length bytes - 1))) = omega arith in
    rw (pad_count_skip a b c bytes, first, last)

-- A last group of one byte, and of two.
one_symbols :
    (a : ℕ) → a < 256 → shift_symbols 2 (bit_and 0xFF a << 16 >> 6) [] ≡ (a / 4) ∷ (a % 4 * 16) ∷ []
one_symbols a h = rw (mask_byte a h) (simp low_six (ground arith))

two_symbols :
    (a b : ℕ)
    → a < 256
    → b < 256
    → shift_symbols 3 (bit_or (bit_and 0xFF a << 16) (bit_and 0xFF b << 8)) []
      ≡ (a / 4) ∷ (a % 4 * 16 + b / 16) ∷ (b % 16 * 4) ∷ []
two_symbols a b h k =
    let e : bit_or (a << 16) (b << 8) ≡ a * 2 ^ 16 + b * 2 ^ 8 =
      bit_or_disjoint 16 a (b << 8) (omega arith) in
    rw (mask_byte a h, mask_byte b k, e) (simp low_six (ground arith))

pad_bytes_one :
    (a y : ℕ) (stream : Bytes) → a < 256 → pad_bytes 2 a y stream ≡ stream ++ text_of (a ∷ [])
unfolding pad_bytes
pad_bytes_one a y stream h =
    ap (λ ss. write_symbols stream ss ++ replicate 2 k_pad) (one_symbols a h) ∙ simp append_assoc

pad_bytes_two :
    (a b : ℕ) (stream : Bytes)
    → a < 256
    → b < 256
    → pad_bytes 1 a b stream ≡ stream ++ text_of (a ∷ b ∷ [])
unfolding pad_bytes
pad_bytes_two a b stream h k =
    ap (λ ss. write_symbols stream ss ++ replicate 1 k_pad) (two_symbols a b h k)
    ∙ simp append_assoc

run_encode_group :
    (a b c : ℕ) (rest stream : Bytes)
    → a < 256
    → b < 256
    → c < 256
    → run_encode (a ∷ b ∷ c ∷ rest) stream ≡ run_encode rest (stream ++ quad a b c)
unfolding run_encode
run_encode_group a b c rest stream ha hb hc =
    ap (λ r. run_encode rest (write_symbols stream (fill_symbols 4 r []))) (register a b c ha hb hc)
    ∙ ap (λ ss. run_encode rest (write_symbols stream ss)) (fill_symbols_quad a b c ha hb hc)
    ∙ ap (run_encode rest) (simp append_assoc)

pad_stream-run_encode :
    (bytes stream : Bytes)
    → All IsByte bytes
    → pad_stream bytes (run_encode bytes stream) ≡ stream ++ text_of bytes
pad_stream-run_encode [] stream h =
    unfold pad_stream pad_bytes run_encode in sym (append-nil stream)
pad_stream-run_encode (a ∷ []) stream h =
    unfold pad_stream run_encode in pad_bytes_one a _ stream h.0
pad_stream-run_encode (a ∷ b ∷ []) stream h =
    unfold pad_stream run_encode in pad_bytes_two a b stream h.0 h.1.0
pad_stream-run_encode (a ∷ b ∷ c ∷ rest) stream (ha, (hb, (hc, h))) =
    pad_stream_skip a b c rest _
    ∙ rw (run_encode_group a b c rest stream ha hb hc)
        (pad_stream-run_encode rest (stream ++ quad a b c) h)
    ∙ append_assoc stream (quad a b c) (text_of rest)

-- `encode` accepts every input that is not empty, and stores its RFC 4648 text if the output
-- pointer is not null.
pub encode-text_of :
    (bytes : Bytes) (result : Option Bytes)
    → All IsByte bytes
    → bytes ≢ []
    → encode bytes result
      ≡ record { accepted = true; errno = success; out = store result (text_of bytes) }
unfolding encode
encode-text_of [] result h ne = absurd (ne refl)
encode-text_of (b ∷ bs) result h ne = ground (arith, pad_stream-run_encode (b ∷ bs) [] h)
