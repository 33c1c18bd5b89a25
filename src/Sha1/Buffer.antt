-- ===== src/Sha1/Buffer.antt =====
-- Source/rfc/sha1.cpp: the block buffer of the context, as the bytes behind the full blocks.
use impact_socket_set.Base.{
  length-set_at, ℕ, zero, suc, ◌+◌, ◌%◌, ◌^◌, ◌≤◌, ◌<◌, true, false, ◌==◌, List, [], ◌∷◌, ◌++◌,
  IsByte, bit_and, length, length-append, append_assoc, append-nil, set_at, take, replicate, ◌≡◌,
  refl, sym, ap, ◌∙◌, subst, arith, Bool-cases, inl, inr,
}
use impact_socket_set.Base.Bits.{bit_and_low}
use impact_socket_set.Sha1.{
  Context, compress, reset, process_message_block, store, store_zeros, count_bits, input_byte,
}
use impact_socket_set.Sha1.Absorb.{Absorbed, push, nothing_absorbed}

module _ {ℓ} {A : Type ℓ} where
  take-set_at :
      (i : ℕ) (a : A) (xs : List A)
      → i < length xs
      → take (suc i) (set_at i a xs) ≡ take i xs ++ (a ∷ [])
  take-set_at i a [] lt = absurd (omega arith)
  take-set_at zero a (x ∷ xs) lt = refl
  take-set_at (suc i) a (x ∷ xs) lt = ap (◌∷◌ x) (take-set_at i a xs (omega arith))

  pub take_all : (n : ℕ) (xs : List A) → length xs ≡ n → take n xs ≡ xs
  take_all zero [] e = refl
  take_all zero (x ∷ xs) e = absurd (omega (arith, e))
  take_all (suc n) [] e = refl
  take_all (suc n) (x ∷ xs) e = ap (◌∷◌ x) (take_all n xs (omega (arith, e)))

-- The context holds what has been absorbed; a block may be full and not processed yet.
pub record Holds (c : Context) (s : Absorbed) : Type 0 where
  pub hash : c.intermediate_hash ≡ s.hash
  pub index : c.message_block_index ≡ length s.tail
  pub kept : take (length s.tail) c.message_block ≡ s.tail
  pub size : length c.message_block ≡ 64

pub store-Holds :
    (byte : ℕ) (c : Context) (s : Absorbed)
    → Holds c s
    → length s.tail < 64
    → Holds (store byte c) (record { hash = s.hash; tail = s.tail ++ (byte ∷ []) })
unfolding store
store-Holds byte c s h room =
    let more : length (s.tail ++ (byte ∷ [])) ≡ suc (length s.tail) =
      omega (arith, length-append s.tail (byte ∷ [])) in
    record {
      hash = h.hash;
      index = omega (arith, more, h.index);
      kept =
          rw (more, h.index)
            (take-set_at (length s.tail) byte c.message_block (omega (arith, h.size))
              ∙ ap (λ t. t ++ (byte ∷ [])) h.kept);
      size = length-set_at c.message_block_index byte c.message_block ∙ h.size;
    }

pub process-Holds :
    (c : Context) (s : Absorbed)
    → Holds c s
    → length s.tail ≡ 64
    → Holds (process_message_block c) (record { hash = compress s.hash s.tail; tail = [] })
unfolding process_message_block
process-Holds c s h full =
    let block : c.message_block ≡ s.tail =
      sym (take_all 64 c.message_block h.size)
      ∙ ap (λ n. take n c.message_block) (sym full)
      ∙ h.kept in
    record {
      hash = ap (λ b. compress c.intermediate_hash b) block ∙ ap (λ g. compress g s.tail) h.hash;
      index = refl;
      kept = refl;
      size = h.size;
    }

pub store_zeros-Holds :
    (count : ℕ) (c : Context) (s : Absorbed)
    → Holds c s
    → length s.tail + count ≤ 64
    → Holds (store_zeros count c) (record { hash = s.hash; tail = s.tail ++ replicate count 0 })
unfolding store_zeros
store_zeros-Holds zero c s h room = rw (append-nil s.tail) h
store_zeros-Holds (suc count) c s h room =
    let one : Absorbed = record { hash = s.hash; tail = s.tail ++ (0 ∷ []) } in
    subst (λ t. Holds (store_zeros count (store 0 c)) (record { hash = s.hash; tail = t }))
      (append_assoc s.tail (0 ∷ []) (replicate count 0))
      (store_zeros-Holds count (store 0 c) one (store-Holds 0 c s h (omega arith))
        (omega (arith, length-append s.tail (0 ∷ []))))

pub reset-Holds : (c : Context) → length c.message_block ≡ 64 → Holds (reset c) nothing_absorbed
unfolding reset
reset-Holds c size = record { hash = refl; index = refl; kept = refl; size = size }

count_bits-Holds : (c : Context) (s : Absorbed) → Holds c s → Holds (count_bits c) s
unfolding count_bits
count_bits-Holds c s h = elim (Bool-cases ((c.length_low + 8) % 2 ^ 32 == 0)) [
  | inl e ↦ rw e (record { hash = h.hash; index = h.index; kept = h.kept; size = h.size })
  | inr e ↦ rw e (record { hash = h.hash; index = h.index; kept = h.kept; size = h.size })
]

-- One byte of input is one byte absorbed.
pub input_byte-Holds :
    (byte : ℕ) (c : Context) (s : Absorbed)
    → IsByte byte
    → Holds c s
    → length s.tail < 64
    → Holds (input_byte byte c) (push byte s)
unfolding input_byte
input_byte-Holds byte c s small h room =
    let same : bit_and byte 0xFF ≡ byte = bit_and_low 8 byte ∙ omega arith in
    let stored : Absorbed = record { hash = s.hash; tail = s.tail ++ (byte ∷ []) } in
    let more : length stored.tail ≡ suc (length s.tail) =
      omega (arith, length-append s.tail (byte ∷ [])) in
    let counted : Context = count_bits (store (bit_and byte 0xFF) c) in
    let held : Holds counted stored =
      count_bits-Holds _ stored (rw same (store-Holds byte c s h room)) in
    elim (Bool-cases (length s.tail == 63)) [
      | inl e ↦
          let full : (counted.message_block_index == 64) ≡ true =
            ground (arith, held.index, more, e) in
          rw (full, e) (process-Holds counted stored held (ground (arith, more, e)))
      | inr e ↦
          let part : (counted.message_block_index == 64) ≡ false =
            ground (arith, held.index, more, e, room) in
          rw (part, e) held
    ]
