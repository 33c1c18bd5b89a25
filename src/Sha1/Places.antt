-- ===== src/Sha1/Places.antt =====
-- Source/rfc/sha1.cpp, _S_pad_message: the length in the last eight places of the block.
use impact_socket_set.Base.{
  ℕ, zero, suc, ◌+◌, ◌-◌, ◌*◌, ◌/◌, ◌%◌, ◌^◌, List, [], ◌∷◌, ◌++◌, Bytes, length, set_at, take,
  drop, ◌≡◌, refl, sym, ap, ◌∙◌, arith,
}
use impact_socket_set.Base.Bits.{◌>>◌}
use impact_socket_set.Sha1.{
  Context, compress, process_message_block, store_length_byte, store_length,
}
use impact_socket_set.Sha1.Absorb.{Absorbed, absorb, absorb-fills, big_endian}
use impact_socket_set.Sha1.Buffer.{Holds}
use impact_socket_set.Sha1.Length.{IsOpen}

module _ {ℓ} {A : Type ℓ} where
  take-drop : (n : ℕ) (xs : List A) → take n xs ++ drop n xs ≡ xs
  take-drop zero xs = refl
  take-drop (suc n) [] = refl
  take-drop (suc n) (x ∷ xs) = ap (◌∷◌ x) (take-drop n xs)

  length-drop : (n : ℕ) (xs : List A) → length (drop n xs) ≡ length xs - n
  length-drop zero xs = omega arith
  length-drop (suc n) [] = omega arith
  length-drop (suc n) (x ∷ xs) = omega (arith, length-drop n xs)

  set_at-append :
      (xs ys : List A) (i j : ℕ) (a : A)
      → j ≡ length xs + i
      → set_at j a (xs ++ ys) ≡ xs ++ set_at i a ys
  set_at-append [] ys i j a e = ap (λ k. set_at k a ys) (omega (arith, e))
  set_at-append (x ∷ xs) ys i zero a e = absurd (omega (arith, e))
  set_at-append (x ∷ xs) ys i (suc j) a e =
      ap (◌∷◌ x) (set_at-append xs ys i j a (omega (arith, e)))

  -- The eight places, in the order in which the loop writes them.
  eight_written :
      (a b c d e f g h : A) (xs : List A)
      → length xs ≡ 8
      → set_at 7 h (
          set_at 3 d
            (set_at 6 g (set_at 2 c (set_at 5 f (set_at 1 b (set_at 4 e (set_at 0 a xs)))))))
        ≡ a ∷ b ∷ c ∷ d ∷ e ∷ f ∷ g ∷ h ∷ []
  eight_written a b c d e f g h [] n = absurd (omega (arith, n))
  eight_written a b c d e f g h (_ ∷ []) n = absurd (omega (arith, n))
  eight_written a b c d e f g h (_ ∷ _ ∷ []) n = absurd (omega (arith, n))
  eight_written a b c d e f g h (_ ∷ _ ∷ _ ∷ []) n = absurd (omega (arith, n))
  eight_written a b c d e f g h (_ ∷ _ ∷ _ ∷ _ ∷ []) n = absurd (omega (arith, n))
  eight_written a b c d e f g h (_ ∷ _ ∷ _ ∷ _ ∷ _ ∷ []) n = absurd (omega (arith, n))
  eight_written a b c d e f g h (_ ∷ _ ∷ _ ∷ _ ∷ _ ∷ _ ∷ []) n = absurd (omega (arith, n))
  eight_written a b c d e f g h (_ ∷ _ ∷ _ ∷ _ ∷ _ ∷ _ ∷ _ ∷ []) n = absurd (omega (arith, n))
  eight_written a b c d e f g h (_ ∷ _ ∷ _ ∷ _ ∷ _ ∷ _ ∷ _ ∷ _ ∷ []) n = refl
  eight_written a b c d e f g h (_ ∷ _ ∷ _ ∷ _ ∷ _ ∷ _ ∷ _ ∷ _ ∷ _ ∷ xs) n =
      absurd (omega (arith, n))

-- The loop that stores the length keeps the first 56 bytes of the block.
store_length-block :
    (c : Context) (front rest : Bytes) (size : ℕ)
    → length front ≡ 56
    → length rest ≡ 8
    → c.message_block ≡ front ++ rest
    → IsOpen c size
    → (store_length c).message_block ≡ front ++ big_endian (8 * size)
unfolding store_length_byte
store_length-block c front rest size n m block h =
    let lo = c.length_low in
    let hi = c.length_high in
    let put : (j i b : ℕ) (xs ys : Bytes)
        → j ≡ 56 + i
        → xs ≡ front ++ ys
        → set_at j b xs ≡ front ++ set_at i b ys =
      λ j i b xs ys e same.
        ap (set_at j b) same ∙ set_at-append front ys i j b (omega (arith, n, e)) in
    let written = put 63 7 (lo >> 0 % 256) _ _ refl (
      put 59 3 (hi >> 0 % 256) _ _ refl (
        put 62 6 (lo >> 8 % 256) _ _ refl (
          put 58 2 (hi >> 8 % 256) _ _ refl (
            put 61 5 (lo >> 16 % 256) _ _ refl (
              put 57 1 (hi >> 16 % 256) _ _ refl (
                put 60 4 (lo >> 24 % 256) _ _ refl
                  (put 56 0 (hi >> 24 % 256) _ _ refl block))))))) in
    let e0 : hi >> 24 % 256 ≡ 8 * size / 2 ^ 56 % 256 = omega (arith, h.bits, h.low) in
    let e1 : hi >> 16 % 256 ≡ 8 * size / 2 ^ 48 % 256 = omega (arith, h.bits, h.low) in
    let e2 : hi >> 8 % 256 ≡ 8 * size / 2 ^ 40 % 256 = omega (arith, h.bits, h.low) in
    let e3 : hi >> 0 % 256 ≡ 8 * size / 2 ^ 32 % 256 = omega (arith, h.bits, h.low) in
    let e4 : lo >> 24 % 256 ≡ 8 * size / 2 ^ 24 % 256 = omega (arith, h.bits, h.low) in
    let e5 : lo >> 16 % 256 ≡ 8 * size / 2 ^ 16 % 256 = omega (arith, h.bits, h.low) in
    let e6 : lo >> 8 % 256 ≡ 8 * size / 2 ^ 8 % 256 = omega (arith, h.bits, h.low) in
    let e7 : lo >> 0 % 256 ≡ 8 * size % 256 = omega (arith, h.bits, h.low) in
    written
    ∙ ap (λ ys. front ++ ys) (eight_written _ _ _ _ _ _ _ _ rest m)
    ∙ ap (λ ys. front ++ ys) (λ i. e0 i ∷ e1 i ∷ e2 i ∷ e3 i ∷ e4 i ∷ e5 i ∷ e6 i ∷ e7 i ∷ [])

-- A block that is full but for the length becomes the last block.
pub finish-Holds :
    (c : Context) (s : Absorbed) (size : ℕ)
    → Holds c s
    → length s.tail ≡ 56
    → IsOpen c size
    → (process_message_block (store_length c)).intermediate_hash
      ≡ (absorb (big_endian (8 * size)) s).hash
unfolding process_message_block store_length_byte
finish-Holds c s size held full h =
    let front : Bytes = s.tail in
    let rest : Bytes = drop 56 c.message_block in
    let start : take 56 c.message_block ≡ front =
      ap (λ n. take n c.message_block) (sym full) ∙ held.kept in
    let block : c.message_block ≡ front ++ rest =
      sym (take-drop 56 c.message_block) ∙ ap (λ t. t ++ rest) start in
    let rest_size : length rest ≡ 8 = length-drop 56 c.message_block ∙ omega (arith, held.size) in
    ap (compress c.intermediate_hash) (store_length-block c front rest size full rest_size block h)
    ∙ ap (λ g. compress g (front ++ big_endian (8 * size))) held.hash
    ∙ ap (λ a. a.hash)
        (sym (absorb-fills (big_endian (8 * size)) s (omega (arith, full)) (omega (arith, full))))
