-- ===== src/Sha1/Tests.antt =====
-- Digests of RFC 3174, and a context that is used after its result.
use impact_socket_set.Base.{some, [], ◌∷◌, ◌≡◌, refl, false, replicate, arith}
use impact_socket_set.Sha1.Absorb.{absorb, nothing_absorbed, padding}
use impact_socket_set.Sha1.Digest.{digest-absorb}
use impact_socket_set.Sha1.{
  Context, digest, reset, input, input_loop, input_byte, count_bits, store, result, pad_message,
  store_zeros, close_message, store_length_byte, process_message_block, compress, schedule,
  block_words, rounds, round, circular_shift, digest_bytes,
}

abbrev dirty : Context
dirty = record {
  intermediate_hash = record { a = 1; b = 2; c = 3; d = 4; e = 5 };
  length_low = 9;
  length_high = 9;
  message_block_index = 70;
  message_block = replicate 64 0xAA;
  computed = false;
  corrupted = false;
}

digest_abc :
    digest dirty (b'a' ∷ b'b' ∷ b'c' ∷ [])
    ≡ some (
        0xa9 ∷ 0x99 ∷ 0x3e ∷ 0x36 ∷ 0x47 ∷ 0x06 ∷ 0x81 ∷ 0x6a ∷ 0xba ∷ 0x3e ∷ 0x25 ∷ 0x71 ∷ 0x78
        ∷ 0x50 ∷ 0xc2 ∷ 0x6c ∷ 0x9c ∷ 0xd0 ∷ 0xd8 ∷ 0x9d ∷ [])
unfolding digest reset input input_loop input_byte count_bits store result pad_message store_zeros
    close_message store_length_byte process_message_block compress schedule block_words rounds round
    circular_shift digest_bytes
digest_abc = refl

digest-absorb_example :
    (let s = absorb (b'a' ∷ b'b' ∷ padding 2) nothing_absorbed in
      (digest dirty (b'a' ∷ b'b' ∷ []) ≡ some (digest_bytes s.hash)) × (s.tail ≡ []))
digest-absorb_example =
    digest-absorb dirty (b'a' ∷ b'b' ∷ []) refl (omega arith, (omega arith, tt)) (omega arith)
