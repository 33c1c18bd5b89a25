-- ===== src/Utf8/Tests.antt =====
-- Runs of the UTF-8 code at concrete inputs.
use impact_socket_set.Base.{ℕ, true, false, some, List, [], ◌∷◌, Bytes, ◌≡◌, refl, arith}
use impact_socket_set.Errno.{ImpErr, success, utf8_badsym, utf8_badhead, utf8_badtrail}
use impact_socket_set.Utf8.{
  estimate_buf_size, encode, serialize_snippet, total_size, encode_all, push_all, serialize_8,
  serialize_16, serialize_32, deserialize, read, step, header, trailer,
}
use impact_socket_set.Utf8.Serialize.{text_of, outcome, serialize_outcome}
use impact_socket_set.Utf8.Deserialize.{deserialize-serialize}
use impact_socket_set.Utf8.Groups.{Text}
use impact_socket_set.Utf8.Verdict.{verdict, deserialize-verdict}

-- "$", U+00A2, U+20AC and U+10348, one for each length.
abbrev each : List ℕ
each = 0x24 ∷ 0xA2 ∷ 0x20AC ∷ 0x10348 ∷ []

deserialize-serialize_example :
    (text : Bytes) × (serialize_32 each (some [])
      ≡ record { accepted = true; errno = success; out = some text })
    × (deserialize text (some (7 ∷ []))
        ≡ record { accepted = true; errno = success; out = some (7 ∷ each) })
deserialize-serialize_example =
    deserialize-serialize each (7 ∷ [])
      (omega arith, (omega arith, (omega arith, (omega arith, tt)))) refl

-- A surrogate pair, which is rejected.
abbrev pair : List ℕ
pair = 0xD800 ∷ 0xDF48 ∷ []

serialize_outcome_example :
    (serialize_8 (0xE9 ∷ []) (some [])
      ≡ record { accepted = true; errno = success; out = some (text_of (0xE9 ∷ [])) })
    × (serialize_16 pair (some []) ≡ outcome pair (some []))
    × (serialize_32 each (some []) ≡ outcome each (some []))
serialize_outcome_example =
    serialize_outcome (0xE9 ∷ []) pair each (some []) (omega arith, tt)
      (omega arith, (omega arith, tt))
      (omega arith, (omega arith, (omega arith, (omega arith, tt))))

serialize_pair :
    serialize_16 pair (some []) ≡ record { accepted = false; errno = utf8_badsym; out = some [] }
unfolding serialize_snippet total_size estimate_buf_size
serialize_pair = refl

serialize_each : serialize_32 each (some []) ≡ record {
  accepted = true;
  errno = success;
  out = some (0x24 ∷ 0xC2 ∷ 0xA2 ∷ 0xE2 ∷ 0x82 ∷ 0xAC ∷ 0xF0 ∷ 0x90 ∷ 0x8D ∷ 0x88 ∷ []);
}
unfolding serialize_snippet total_size estimate_buf_size encode_all encode
serialize_each = refl

-- What was read before an error stays pushed back.
bad_trailer :
    deserialize (0x24 ∷ 0xC2 ∷ 0x24 ∷ []) (some [])
    ≡ record { accepted = false; errno = utf8_badtrail; out = some (0x24 ∷ []) }
unfolding deserialize read step header trailer
bad_trailer = refl

-- A symbol in an overlong form and a surrogate, and behind them a byte that leads nothing.
abbrev stray : Bytes
stray = 0xC0 ∷ 0x80 ∷ 0xED ∷ 0xA0 ∷ 0x80 ∷ 0xFF ∷ []

deserialize-verdict_example :
    (cs : List ℕ) × (e : ImpErr) × Text stray cs e
    × (deserialize stray (some (7 ∷ [])) ≡ verdict e (push_all (some (7 ∷ [])) cs))
deserialize-verdict_example = deserialize-verdict stray (some (7 ∷ [])) (ground arith)

stray_read : deserialize stray (some (7 ∷ [])) ≡ verdict utf8_badhead (some (7 ∷ 0 ∷ 0xD800 ∷ []))
unfolding deserialize read step header trailer
stray_read = refl

-- An overlong form is accepted.
overlong :
    deserialize (0xC0 ∷ 0x80 ∷ []) (some [])
    ≡ record { accepted = true; errno = success; out = some (0 ∷ []) }
unfolding deserialize read step header trailer
overlong = refl
