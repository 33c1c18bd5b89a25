-- ===== src/Sha1/Digest.antt =====
-- Source/rfc/sha1.cpp, digest: the digest of a whole message, and a context after its result.
use impact_socket_set.Base.{
  ℕ, zero, suc, ◌+◌, ◌*◌, ◌%◌, ◌^◌, ◌<◌, Bool, true, false, ltb, ◌==◌, if◌then◌else◌, Option, none,
  some, [], ◌∷◌, ◌++◌, Bytes, All, IsByte, length, length-append, length-replicate, length-take,
  take, replicate, ◌≡◌, ◌≢◌, refl, sym, ap, ◌∙◌, subst, arith, Bool-cases, inl, inr,
}
use impact_socket_set.Sha1.{
  Status, success, nil, state_error, Context, reset, input, input_loop, result, close_message,
  digest, digest_bytes, pad_message, store, store_zeros, process_message_block, store_length_byte,
}
use impact_socket_set.Sha1.Absorb.{
  Absorbed, absorb, absorb-append, absorb-length, nothing_absorbed, padding, zero_count, big_endian,
}
use impact_socket_set.Sha1.Buffer.{reset-Holds, take_all}
use impact_socket_set.Sha1.Length.{IsOpen, reset-IsOpen, input_loop-Holds}
use impact_socket_set.Sha1.Padding.{pad_message-absorb}

input-loop :
    (message : Bytes) (c : Context)
    → c.corrupted ≡ false
    → c.computed ≡ false
    → input message (length message) c ≡ (success, input_loop message c)
unfolding input input_loop
input-loop [] c sound running = refl
input-loop (x ∷ xs) c sound running =
    let m : Bytes = x ∷ xs in
    let some_bytes : (length m == 0) ≡ false = ground arith in
    let ready : Status × Context = (success, input_loop (take (length m) m) c) in
    let stale : Status × Context = (state_error, record c { corrupted = true }) in
    ap
      (λ b.
        if b
        then (success, c)
        else if c.corrupted
        then (nil, c)
        else if c.computed
        then stale
        else ready)
      some_bytes
    ∙ ap (λ b. if b then (nil, c) else if c.computed then stale else ready) sound
    ∙ ap (λ b. if b then stale else ready) running
    ∙ ap (λ t. (success, input_loop t c)) (take_all (length m) m refl)

result-open :
    (c : Context)
    → c.corrupted ≡ false
    → c.computed ≡ false
    → (result c).1.1 ≡ some (digest_bytes (pad_message c).intermediate_hash)
unfolding result close_message
result-open c sound running =
    let closed : Bool → Context = λ b. if b then c else record (pad_message c) {
      message_block = replicate 64 0;
      length_low = 0;
      length_high = 0;
      computed = true;
    } in
    let answer : Status × (Context × Option Bytes) =
      (success, (closed c.computed, some (digest_bytes (closed c.computed).intermediate_hash))) in
    let refused : Status × (Context × Option Bytes) = (nil, (c, none)) in
    ap (λ b. (if b then refused else answer).1.1) sound
    ∙ ap (λ b. some (digest_bytes (closed b).intermediate_hash)) running

length_zero : (xs : Bytes) → length xs ≡ 0 → xs ≡ []
length_zero [] e = refl
length_zero (x ∷ xs) e = absurd (omega (arith, e))

padded_blocks :
    (message : Bytes) → (absorb (message ++ padding (length message)) nothing_absorbed).tail ≡ []
unfolding padding
padded_blocks message =
    let n : ℕ = length message in
    let zeros : Bytes = replicate (zero_count n) 0 in
    let (_, tail) = absorb-length (message ++ padding n) nothing_absorbed (omega arith) in
    let whole : (n + 9 + zero_count n) % 64 ≡ 0 = ground arith in
    length_zero _ (
      omega (
        arith,
        tail,
        whole,
        length-append message (padding n),
        length-append zeros (big_endian (8 * n)),
        length-replicate (zero_count n) 0,
      ))

-- For a message of fewer than 2^32 bytes the digest is that of RFC 3174: the blocks of the message,
-- followed by 0x80, by the zeros that fill the last block up to eight bytes, and by the length in
-- bits as eight bytes with the highest first, are absorbed one after the other and none is left
-- over. What memory held before the call does not matter.
pub digest-absorb :
    (c : Context) (message : Bytes)
    → length c.message_block ≡ 64
    → All IsByte message
    → length message < 2 ^ 32
    → (let s = absorb (message ++ padding (length message)) nothing_absorbed in
        (digest c message ≡ some (digest_bytes s.hash)) × (s.tail ≡ []))
unfolding digest padding
digest-absorb c message size bytes short =
    let n : ℕ = length message in
    let fed : Context = input_loop message (reset c) in
    let (held, counted) =
      input_loop-Holds message (reset c) nothing_absorbed 0 bytes (reset-Holds c size) (omega arith)
        (reset-IsOpen c) (omega (arith, short)) in
    let s : Absorbed = absorb message nothing_absorbed in
    let same : 0 + n ≡ n = omega arith in
    let counted_n : IsOpen fed n = subst (IsOpen fed) same counted in
    let (less, tail) = absorb-length message nothing_absorbed (omega arith) in
    let padded = pad_message-absorb fed s n held counted_n (tail ∙ ap (λ k. k % 64) same) in
    let whole = absorb-append message (padding n) nothing_absorbed in
    let count : n % 2 ^ 32 ≡ n = omega (arith, short) in
    let answer : Status × Context → Option Bytes =
      λ r. elim (r.0) [ success ↦ (result r.1).1.1 | _ ↦ none ] in
    (
      ap (λ k. answer (input message k (reset c))) count
          ∙ ap answer (input-loop message (reset c) (reset-IsOpen c).sound (reset-IsOpen c).running)
          ∙ result-open fed counted_n.sound counted_n.running
          ∙ ap (λ h. some (digest_bytes h)) (padded ∙ ap (λ a. a.hash) (sym whole)),
      padded_blocks message,
    )

input-take :
    (message : Bytes) (count : ℕ) (c : Context)
    → length (take count message) ≡ count
    → input (take count message) count c ≡ input message count c
unfolding input
input-take message count c e =
    ap
      (λ t.
        if count == 0
        then (success, c)
        else if c.corrupted
        then (nil, c)
        else if c.computed
        then (state_error, record c { corrupted = true })
        else (success, input_loop t c))
      (take_all count (take count message) e)

-- A message of any size has the digest of its first (size modulo 2^32) bytes, since the size is
-- passed on as an `unsigned int`.
digest-truncates :
    (c : Context) (message : Bytes)
    → digest c message ≡ digest c (take (length message % 2 ^ 32) message)
unfolding digest
digest-truncates c message =
    let count : ℕ = length message % 2 ^ 32 in
    let short : Bytes = take count message in
    let size : length short ≡ count = omega (arith, length-take count message) in
    let same : count ≡ length short % 2 ^ 32 = omega (arith, size) in
    let answer : Status × Context → Option Bytes =
      λ r. elim (r.0) [ success ↦ (result r.1).1.1 | _ ↦ none ] in
    ap answer (sym (input-take message count (reset c) size))
    ∙ ap (λ k. answer (input short k (reset c))) same

store_zeros-corrupted : (count : ℕ) (c : Context) → (store_zeros count c).corrupted ≡ c.corrupted
unfolding store_zeros store
store_zeros-corrupted zero c = refl
store_zeros-corrupted (suc count) c = store_zeros-corrupted count (store 0 c)

pad_message-corrupted : (c : Context) → (pad_message c).corrupted ≡ c.corrupted
unfolding pad_message process_message_block store_length_byte store
pad_message-corrupted c = elim (Bool-cases (ltb 55 c.message_block_index)) [
  | inl e ↦ rw e (store_zeros-corrupted _ _ ∙ store_zeros-corrupted _ _)
  | inr e ↦ rw e (store_zeros-corrupted _ _)
]

close_message-computed :
    (c : Context)
    → ((close_message c).corrupted ≡ c.corrupted) × ((close_message c).computed ≡ true)
unfolding close_message
close_message-computed c =
    let closed : Bool → Context = λ b. if b then c else record (pad_message c) {
      message_block = replicate 64 0;
      length_low = 0;
      length_high = 0;
      computed = true;
    } in
    elim (Bool-cases c.computed) [
      | inl e ↦ (ap (λ b. (closed b).corrupted) e, ap (λ b. (closed b).computed) e ∙ e)
      | inr e ↦ (
        ap (λ b. (closed b).corrupted) e ∙ pad_message-corrupted c,
        ap (λ b. (closed b).computed) e,
      )
    ]

result-closes : (c : Context) → c.corrupted ≡ false → (result c).1.0 ≡ close_message c
unfolding result
result-closes c sound =
    let refused : Status × (Context × Option Bytes) = (nil, (c, none)) in
    let answer : Status × (Context × Option Bytes) =
      (success, (close_message c, some (digest_bytes (close_message c).intermediate_hash))) in
    ap (λ b. (if b then refused else answer).1.0) sound

-- Input of at least one byte to a context whose result has been taken is refused with STATE_ERROR,
-- and from then on the context answers NIL and gives no digest.
input-after_result :
    (c : Context) (message : Bytes) (size : ℕ)
    → c.corrupted ≡ false
    → size ≢ 0
    → (let after = input message size (result c).1.0 in
        (after.0 ≡ state_error)
        × ((result after.1).0 ≡ nil)
        × ((result after.1).1.1 ≡ none)
        × ((input message size after.1).0 ≡ nil))
unfolding input result
input-after_result c message size sound some_bytes =
    let d : Context = close_message c in
    let (same, closed) = close_message-computed c in
    let test : (size == 0) ≡ false = ground (arith, some_bytes) in
    let dead : Context = record d { corrupted = true } in
    let unchanged : Status × Context = (success, d) in
    let refused : Status × Context = (nil, d) in
    let stale : Status × Context = (state_error, dead) in
    let ready : Status × Context = (success, input_loop (take size message) d) in
    let idle : Status × Context = (success, dead) in
    let lost : Status × Context = (nil, dead) in
    let after : input message size (result c).1.0 ≡ stale =
      ap (input message size) (result-closes c sound)
      ∙ ap
          (λ b.
            if b
            then unchanged
            else if d.corrupted
            then refused
            else if d.computed
            then stale
            else ready)
          test
      ∙ ap (λ b. if b then refused else if d.computed then stale else ready) (same ∙ sound)
      ∙ ap (λ b. if b then stale else ready) closed in
    (
      ap (λ r. r.0) after,
      ap (λ r. (result r.1).0) after,
      ap (λ r. (result r.1).1.1) after,
      ap (λ r. (input message size r.1).0) after ∙ ap (λ b. (if b then idle else lost).0) test,
    )
