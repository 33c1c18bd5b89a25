-- ===== src/Sha1/Absorb.antt =====
-- RFC 3174: a hash that takes bytes one by one and a block of 64 of them at a time, and the padded
-- message. Of the program it uses the function of one block alone.
use impact_socket_set.Base.{
  ℕ, ◌+◌, ◌-◌, ◌*◌, ◌/◌, ◌%◌, ◌^◌, ◌<◌, true, false, leb, ◌==◌, if◌then◌else◌, [], ◌∷◌, ◌++◌, Bytes,
  length, length-append, append_assoc, append-nil, replicate, ◌≡◌, refl, ap, ◌∙◌, arith,
}
use impact_socket_set.Sha1.{Words, initial_hash, compress}

-- The hash of the full blocks, and the bytes behind them.
pub record Absorbed : Type 0 where
  pub hash : Words
  pub tail : Bytes

abbrev pub push : ℕ → Absorbed → Absorbed
push byte s =
    if length s.tail == 63
    then record { hash = compress s.hash (s.tail ++ (byte ∷ [])); tail = [] }
    else record { hash = s.hash; tail = s.tail ++ (byte ∷ []) }

unfoldable pub absorb : Bytes → Absorbed → Absorbed
absorb [] s = s
absorb (byte ∷ rest) s = absorb rest (push byte s)

abbrev pub nothing_absorbed : Absorbed
nothing_absorbed = record { hash = initial_hash; tail = [] }

-- Eight bytes, the highest first.
abbrev pub big_endian : ℕ → Bytes
big_endian n =
    n / 2 ^ 56 % 256
    ∷ n / 2 ^ 48 % 256
    ∷ n / 2 ^ 40 % 256
    ∷ n / 2 ^ 32 % 256
    ∷ n / 2 ^ 24 % 256
    ∷ n / 2 ^ 16 % 256
    ∷ n / 2 ^ 8 % 256
    ∷ n % 256
    ∷ []

-- The count of zeros that fills the last block behind 0x80, up to the eight bytes of the length.
abbrev pub zero_count : ℕ → ℕ
zero_count size = if leb (size % 64) 55 then 55 - size % 64 else 119 - size % 64

unfoldable pub padding : ℕ → Bytes
padding size = 0x80 ∷ (replicate (zero_count size) 0 ++ big_endian (8 * size))

pub absorb-append : (xs ys : Bytes) (s : Absorbed) → absorb (xs ++ ys) s ≡ absorb ys (absorb xs s)
unfolding absorb
absorb-append [] ys s = refl
absorb-append (x ∷ xs) ys s = absorb-append xs ys (push x s)

pub absorb-length :
    (xs : Bytes) (s : Absorbed)
    → length s.tail < 64
    → (length (absorb xs s).tail < 64)
      × (length (absorb xs s).tail ≡ (length s.tail + length xs) % 64)
unfolding absorb
absorb-length [] s room = (room, omega arith)
absorb-length (x ∷ xs) s room =
    let pushed : (length (push x s).tail < 64)
        × (length (push x s).tail ≡ (length s.tail + 1) % 64) =
      ground (arith, length-append s.tail (x ∷ [])) in
    let (less, sum) = absorb-length xs (push x s) pushed.0 in (less, omega (arith, sum, pushed.1))

-- Bytes that do not fill the block are kept.
pub absorb-fits :
    (xs : Bytes) (s : Absorbed)
    → length s.tail + length xs < 64
    → absorb xs s ≡ record { hash = s.hash; tail = s.tail ++ xs }
unfolding absorb
absorb-fits [] s room = rw (append-nil s.tail) refl
absorb-fits (x ∷ xs) s room =
    let pushed : push x s ≡ record { hash = s.hash; tail = s.tail ++ (x ∷ []) } =
      let other : (length s.tail == 63) ≡ false = ground arith in rw other refl in
    ap (absorb xs) pushed
    ∙ absorb-fits xs (record { hash = s.hash; tail = s.tail ++ (x ∷ []) })
        (omega (arith, length-append s.tail (x ∷ [])))
    ∙ ap (λ t. record { hash = s.hash; tail = t }) (append_assoc s.tail (x ∷ []) xs)

-- Bytes that fill it make it the next block.
pub absorb-fills :
    (xs : Bytes) (s : Absorbed)
    → length s.tail + length xs ≡ 64
    → length s.tail < 64
    → absorb xs s ≡ record { hash = compress s.hash (s.tail ++ xs); tail = [] }
unfolding absorb
absorb-fills [] s full room = absurd (omega arith)
absorb-fills (x ∷ []) s full room =
    let last : (length s.tail == 63) ≡ true = ground arith in rw last refl
absorb-fills (x ∷ (y ∷ ys)) s full room =
    let pushed : push x s ≡ record { hash = s.hash; tail = s.tail ++ (x ∷ []) } =
      let other : (length s.tail == 63) ≡ false = ground arith in rw other refl in
    ap (absorb (y ∷ ys)) pushed
    ∙ absorb-fills (y ∷ ys) (record { hash = s.hash; tail = s.tail ++ (x ∷ []) })
        (omega (arith, length-append s.tail (x ∷ [])))
        (omega (arith, length-append s.tail (x ∷ [])))
    ∙ ap (λ t. record { hash = compress s.hash t; tail = [] })
        (append_assoc s.tail (x ∷ []) (y ∷ ys))
