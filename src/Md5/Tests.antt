-- ===== src/Md5/Tests.antt =====
-- A digest of RFC 1321, and a padded message.
use impact_socket_set.Base.{ℕ, ◌*◌, ◌%◌, ◌^◌, ◌<◌, ◌++◌, length, replicate, [], ◌∷◌, ◌≡◌, refl}
use impact_socket_set.BitOps.Order.{bytes_of}
use impact_socket_set.Md5.Padding.{preprocess-shape}
use impact_socket_set.Md5.{
  digest, process, chunks, rounds, round, mix, rotate_left, word, preprocess, zero_pad_length,
  shifts, sines,
}

preprocess-shape_example :
    (zeros : ℕ) × (preprocess (b'a' ∷ b'b' ∷ [])
      ≡ (b'a' ∷ b'b' ∷ 0x80 ∷ []) ++ (replicate zeros 0 ++ bytes_of 8 (2 * 8 % 2 ^ 64)))
    × (zeros < 64)
    × (length (preprocess (b'a' ∷ b'b' ∷ [])) % 64 ≡ 0)
preprocess-shape_example = preprocess-shape (b'a' ∷ b'b' ∷ [])

-- RFC 1321, A.5
digest_abc :
    digest (b'a' ∷ b'b' ∷ b'c' ∷ [])
    ≡ 0x90 ∷ 0x01 ∷ 0x50 ∷ 0x98 ∷ 0x3c ∷ 0xd2 ∷ 0x4f ∷ 0xb0 ∷ 0xd6 ∷ 0x96 ∷ 0x3f ∷ 0x7d ∷ 0x28
      ∷ 0xe1 ∷ 0x7f ∷ 0x72 ∷ []
unfolding digest process chunks rounds round mix rotate_left word preprocess zero_pad_length shifts
    sines
digest_abc = refl
