-- ===== src/Sha1/Padding.antt =====
-- Source/rfc/sha1.cpp, _S_pad_message: the padding in the buffer against the padding of RFC 3174.
use impact_socket_set.Base.{
  ℕ, ◌+◌, ◌-◌, ◌*◌, ◌%◌, ◌≤◌, ◌<◌, true, false, ltb, if◌then◌else◌, [], ◌∷◌, ◌++◌, Bytes, length,
  length-append, append_assoc, replicate, length-replicate, replicate-add, ◌≡◌, refl, sym, ap, ◌∙◌,
  subst, arith, Bool-cases, inl, inr,
}
use impact_socket_set.Sha1.{
  Context, compress, process_message_block, store, store_zeros, fill, store_length, pad_message,
}
use impact_socket_set.Sha1.Absorb.{
  Absorbed, absorb, absorb-append, absorb-fits, absorb-fills, big_endian, zero_count, padding,
}
use impact_socket_set.Sha1.Buffer.{Holds, store-Holds, process-Holds, store_zeros-Holds}
use impact_socket_set.Sha1.Length.{IsOpen, store-IsOpen, store_zeros-IsOpen}
use impact_socket_set.Sha1.Places.{finish-Holds}

fill-Holds :
    (limit : ℕ) (c : Context) (s : Absorbed)
    → Holds c s
    → length s.tail ≤ limit
    → limit ≤ 64
    → Holds
        (fill limit c)
        (record { hash = s.hash; tail = s.tail ++ replicate (limit - length s.tail) 0 })
fill-Holds limit c s held below room =
    subst
      (λ n.
        Holds (store_zeros (limit - n) c)
          (record { hash = s.hash; tail = s.tail ++ replicate (limit - length s.tail) 0 }))
      (sym held.index) (store_zeros-Holds (limit - length s.tail) c s held (omega arith))

-- The mark and the zeros up to a limit in the block.
mark_fill-Holds :
    (limit zeros : ℕ) (c : Context) (s : Absorbed)
    → Holds c s
    → length s.tail + 1 + zeros ≡ limit
    → limit ≤ 64
    → Holds
        (fill limit (store 0x80 c))
        (record { hash = s.hash; tail = s.tail ++ (0x80 ∷ replicate zeros 0) })
mark_fill-Holds limit zeros c s held sum room =
    let marked : Absorbed = record { hash = s.hash; tail = s.tail ++ (0x80 ∷ []) } in
    let size : length marked.tail ≡ length s.tail + 1 =
      omega (arith, length-append s.tail (0x80 ∷ [])) in
    let count : limit - length marked.tail ≡ zeros = omega (arith, size, sum) in
    let filled =
      fill-Holds limit (store 0x80 c) marked (store-Holds 0x80 c s held (omega (arith, sum)))
        (omega (arith, size, sum)) room in
    subst (λ t. Holds (fill limit (store 0x80 c)) (record { hash = s.hash; tail = t }))
      (append_assoc s.tail (0x80 ∷ []) (replicate zeros 0))
      (subst
        (λ n.
          Holds (fill limit (store 0x80 c))
            (record { hash = s.hash; tail = (s.tail ++ (0x80 ∷ [])) ++ replicate n 0 }))
        count filled)

pad_message-parts :
    (c ready : Context) (s : Absorbed) (size : ℕ)
    → (if ltb 55 c.message_block_index
        then fill 56 (process_message_block (fill 64 (store 0x80 c)))
        else fill 56 (store 0x80 c))
      ≡ ready
    → Holds ready (absorb (0x80 ∷ replicate (zero_count size) 0) s)
    → length (absorb (0x80 ∷ replicate (zero_count size) 0) s).tail ≡ 56
    → IsOpen ready size
    → (pad_message c).intermediate_hash ≡ (absorb (padding size) s).hash
unfolding pad_message padding
pad_message-parts c ready s size same held full h =
    ap (λ d. (process_message_block (store_length d)).intermediate_hash) same
    ∙ finish-Holds ready _ size held full h
    ∙ ap (λ a. a.hash)
        (sym (absorb-append (0x80 ∷ replicate (zero_count size) 0) (big_endian (8 * size)) s))

pad_short :
    (c : Context) (s : Absorbed) (size : ℕ)
    → Holds c s
    → IsOpen c size
    → length s.tail ≡ size % 64
    → size % 64 ≤ 55
    → (pad_message c).intermediate_hash ≡ (absorb (padding size) s).hash
pad_short c s size held h tail short =
    let zeros : zero_count size ≡ 55 - size % 64 = ground (arith, short) in
    let sum : length s.tail + 1 + zero_count size ≡ 56 = omega (arith, tail, zeros, short) in
    let fits =
      absorb-fits (0x80 ∷ replicate (zero_count size) 0) s
        (omega (arith, length-replicate (zero_count size) 0, sum)) in
    let test : ltb 55 c.message_block_index ≡ false = ground (arith, held.index, tail, short) in
    let filled = mark_fill-Holds 56 (zero_count size) c s held sum (omega arith) in
    pad_message-parts c (fill 56 (store 0x80 c)) s size (rw test refl) (rw fits filled)
      (rw fits (
        omega (
          arith,
          length-append s.tail (0x80 ∷ replicate (zero_count size) 0),
          length-replicate (zero_count size) 0,
          sum,
        )))
      (store_zeros-IsOpen _ _ size (store-IsOpen 0x80 c size h))

pad_long :
    (c : Context) (s : Absorbed) (size : ℕ)
    → Holds c s
    → IsOpen c size
    → length s.tail ≡ size % 64
    → 55 < size % 64
    → (pad_message c).intermediate_hash ≡ (absorb (padding size) s).hash
unfolding process_message_block
pad_long c s size held h tail long =
    let first : ℕ = 63 - size % 64 in
    let zeros : zero_count size ≡ first + 56 = ground (arith, long) in
    let sum : length s.tail + 1 + first ≡ 64 = omega (arith, tail, long) in
    let mark : Bytes = 0x80 ∷ replicate first 0 in
    let next : Absorbed = record { hash = compress s.hash (s.tail ++ mark); tail = [] } in
    let split : absorb (0x80 ∷ replicate (zero_count size) 0) s ≡ absorb (replicate 56 0) next =
      ap (λ n. absorb (0x80 ∷ replicate n 0) s) zeros
      ∙ ap (λ t. absorb (0x80 ∷ t) s) (replicate-add first 56 0)
      ∙ absorb-append mark (replicate 56 0) s
      ∙ ap (absorb (replicate 56 0)) (
          absorb-fills mark s (omega (arith, length-replicate first 0, sum))
            (omega (arith, tail))) in
    let ends : absorb (replicate 56 0) next ≡ record { hash = next.hash; tail = replicate 56 0 } =
      absorb-fits (replicate 56 0) next (omega arith) in
    let test : ltb 55 c.message_block_index ≡ true = ground (arith, held.index, tail, long) in
    let full = mark_fill-Holds 64 first c s held sum (omega arith) in
    let processed =
      process-Holds (fill 64 (store 0x80 c)) _ full
        (omega (arith, length-append s.tail mark, length-replicate first 0, sum)) in
    let filled =
      fill-Holds 56 (process_message_block (fill 64 (store 0x80 c))) next processed (omega arith)
        (omega arith) in
    let counted =
      store_zeros-IsOpen (64 - (store 0x80 c).message_block_index) (store 0x80 c) size
        (store-IsOpen 0x80 c size h) in
    pad_message-parts c (fill 56 (process_message_block (fill 64 (store 0x80 c)))) s size
      (rw test refl) (rw (split, ends) filled) (rw (split, ends) refl)
      (store_zeros-IsOpen _ _ size (record {
        bits = counted.bits;
        low = counted.low;
        sound = counted.sound;
        running = counted.running;
      }))

-- Padding the buffer absorbs the padding of RFC 3174.
pub pad_message-absorb :
    (c : Context) (s : Absorbed) (size : ℕ)
    → Holds c s
    → IsOpen c size
    → length s.tail ≡ size % 64
    → (pad_message c).intermediate_hash ≡ (absorb (padding size) s).hash
pad_message-absorb c s size held h tail = elim (Bool-cases (ltb 55 (size % 64))) [
  | inl e ↦ pad_long c s size held h tail (ground (arith, e))
  | inr e ↦ pad_short c s size held h tail (ground (arith, e))
]
