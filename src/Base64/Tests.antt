-- ===== src/Base64/Tests.antt =====
-- Runs of the base 64 code at concrete inputs.
use impact_socket_set.Base.{
  ◌+◌, ◌%◌, true, false, some, [], ◌∷◌, Bytes, All, IsByte, ◌≡◌, ◌≢◌, refl, ap, length, arith,
}
use impact_socket_set.Errno.{success, b64_badpad}
use impact_socket_set.Base.Table.{holds_below}
use impact_socket_set.Base64.{
  codes, encode, decode, alphabet, reverse_lookup, run_encode, pad_stream, pad_bytes, k_alphabet,
  run_decode, push_symbol, unpad_stream, decode_symbols,
}
use impact_socket_set.Base64.Text.{text_of}
use impact_socket_set.Base64.Encode.{encode-text_of}
use impact_socket_set.Base64.Decode.{decode_counts, Judged, pads, symbols, in_alphabet}
use impact_socket_set.Base64.RoundTrip.{decode-encode}

abbrev four : Bytes
four = 0x66 ∷ 0x00 ∷ 0xFF ∷ 0x62 ∷ []

four-All : All IsByte four
four-All = (omega arith, (omega arith, (omega arith, (omega arith, tt))))

four_some : four ≢ []
four_some e = omega (arith, ap length e)

decode-encode_example :
    (text : Bytes) × (encode four (some [])
      ≡ record { accepted = true; errno = success; out = some text })
    × (decode text (some (1 ∷ [])) ≡ record { accepted = true; errno = success; out = some four })
decode-encode_example = decode-encode four [] (1 ∷ []) four-All four_some

encode-text_of_example :
    encode four (some []) ≡ record { accepted = true; errno = success; out = some (text_of four) }
encode-text_of_example = encode-text_of four (some []) four-All four_some

abbrev short : Bytes
short = codes "Zm9=="

decode_counts_example : Judged (pads short + symbols short % 4) (some []) (decode short (some []))
decode_counts_example =
    decode_counts short (some [])
      (omega arith, (omega arith, (omega arith, (omega arith, (omega arith, tt)))))
      (λ e. omega (arith, ap length e)) (unfold in_alphabet alphabet k_alphabet holds_below in refl)

-- The examples of RFC 4648, and the texts that are rejected.
encode_foob :
    encode (codes "foob") (some [])
    ≡ record { accepted = true; errno = success; out = some (codes "Zm9vYg==") }
unfolding encode run_encode pad_stream pad_bytes alphabet k_alphabet
encode_foob = refl

decode_foob :
    decode (codes "Zm9vYg==") (some [])
    ≡ record { accepted = true; errno = success; out = some (codes "foob") }
unfolding decode run_decode push_symbol reverse_lookup unpad_stream decode_symbols
decode_foob = refl

decode_short :
    decode short (some []) ≡ record { accepted = false; errno = b64_badpad; out = some [] }
unfolding decode run_decode push_symbol reverse_lookup unpad_stream decode_symbols
decode_short = refl

-- An empty input is accepted, and leaves the old output.
decode_empty :
    decode [] (some (1 ∷ [])) ≡ record { accepted = true; errno = success; out = some (1 ∷ []) }
unfolding decode
decode_empty = refl
