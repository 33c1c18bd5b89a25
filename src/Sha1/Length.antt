-- ===== src/Sha1/Length.antt =====
-- Source/rfc/sha1.cpp: the bits that the context counts, and the loop of _S_input.
use impact_socket_set.Base.{
  ℕ, zero, suc, ◌+◌, ◌*◌, ◌%◌, ◌^◌, ◌<◌, false, ◌==◌, if◌then◌else◌, [], ◌∷◌, Bytes, All, IsByte,
  bit_and, length, ◌≡◌, refl, sym, ap, subst, arith, Bool-cases, inl, inr,
}
use impact_socket_set.Sha1.{
  Context, reset, process_message_block, store, store_zeros, count_bits, input_byte, input_loop,
}
use impact_socket_set.Sha1.Absorb.{Absorbed, push, absorb, absorb-length}
use impact_socket_set.Sha1.Buffer.{Holds, input_byte-Holds}

-- A context in use, that has counted the bits of a message of this size.
pub record IsOpen (c : Context) (size : ℕ) : Type 0 where
  pub bits : c.length_high * 2 ^ 32 + c.length_low ≡ 8 * size
  pub low : c.length_low < 2 ^ 32
  pub sound : c.corrupted ≡ false
  pub running : c.computed ≡ false

pub reset-IsOpen : (c : Context) → IsOpen (reset c) 0
unfolding reset
reset-IsOpen c = record { bits = refl; low = omega arith; sound = refl; running = refl }

count_bits-IsOpen :
    (c : Context) (size : ℕ)
    → IsOpen c size
    → 8 * (size + 1) < 2 ^ 64
    → IsOpen (count_bits c) (size + 1)
unfolding count_bits
count_bits-IsOpen c size h fits = elim (Bool-cases ((c.length_low + 8) % 2 ^ 32 == 0)) [
  | inl e ↦
      let more : ((c.length_high + 1) % 2 ^ 32 == 0) ≡ false = ground (arith, h.bits, h.low, e) in
      rw (e, more)
        (record {
          bits = ground (arith, h.bits, h.low, e);
          low = omega arith;
          sound = h.sound;
          running = h.running;
        })
  | inr e ↦ rw e (record {
    bits = ground (arith, h.bits, h.low, e);
    low = omega arith;
    sound = h.sound;
    running = h.running;
  })
]

pub store-IsOpen : (b : ℕ) (c : Context) (size : ℕ) → IsOpen c size → IsOpen (store b c) size
unfolding store
store-IsOpen b c size h = record {
  bits = h.bits;
  low = h.low;
  sound = h.sound;
  running = h.running;
}

input_byte-IsOpen :
    (byte : ℕ) (c : Context) (size : ℕ)
    → IsOpen c size
    → 8 * (size + 1) < 2 ^ 64
    → IsOpen (input_byte byte c) (size + 1)
unfolding input_byte process_message_block
input_byte-IsOpen byte c size h fits =
    let counted : Context = count_bits (store (bit_and byte 0xFF) c) in
    let stored : IsOpen counted (size + 1) =
      count_bits-IsOpen (store (bit_and byte 0xFF) c) size
        (store-IsOpen (bit_and byte 0xFF) c size h) fits in
    elim (Bool-cases (counted.message_block_index == 64)) [
      | inl e ↦ rw e (record {
        bits = stored.bits;
        low = stored.low;
        sound = stored.sound;
        running = stored.running;
      })
      | inr e ↦ rw e stored
    ]

input_loop-more :
    (x : ℕ) (xs : Bytes) (c : Context)
    → c.corrupted ≡ false
    → input_loop (x ∷ xs) c ≡ input_loop xs (input_byte x c)
unfolding input_loop
input_loop-more x xs c sound = ap (λ b. if b then c else input_loop xs (input_byte x c)) sound

-- The loop of _S_input absorbs the bytes and counts them, while their bits fit in 64.
pub input_loop-Holds :
    (xs : Bytes) (c : Context) (s : Absorbed) (size : ℕ)
    → All IsByte xs
    → Holds c s
    → length s.tail < 64
    → IsOpen c size
    → 8 * (size + length xs) < 2 ^ 64
    → Holds (input_loop xs c) (absorb xs s) × IsOpen (input_loop xs c) (size + length xs)
unfolding input_loop absorb
input_loop-Holds [] c s size bytes held room h fits =
    let same : size + 0 ≡ size = omega arith in (held, rw same h)
input_loop-Holds (x ∷ xs) c s size bytes held room h fits =
    let pushed = absorb-length (x ∷ []) s room in
    let (later, open_later) =
      input_loop-Holds xs (input_byte x c) (push x s) (size + 1) bytes.1
        (input_byte-Holds x c s bytes.0 held room) pushed.0
        (input_byte-IsOpen x c size h (omega arith)) (omega arith) in
    let sum : size + 1 + length xs ≡ size + length (x ∷ xs) = omega arith in
    subst (λ d. Holds d (absorb (x ∷ xs) s) × IsOpen d (size + length (x ∷ xs)))
      (sym (input_loop-more x xs c h.sound)) (later, rw (sym sum) open_later)

-- The zeros of the padding leave the counts.
pub store_zeros-IsOpen :
    (count : ℕ) (c : Context) (size : ℕ) → IsOpen c size → IsOpen (store_zeros count c) size
unfolding store_zeros
store_zeros-IsOpen zero c size h = h
store_zeros-IsOpen (suc count) c size h =
    store_zeros-IsOpen count (store 0 c) size (store-IsOpen 0 c size h)
