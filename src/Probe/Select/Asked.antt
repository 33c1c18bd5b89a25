-- ===== src/Probe/Select/Asked.antt =====
-- Source/probe.cpp: what `select` asks ::select for.
use mathlib.Core.Bool.{or_assoc}
use impact_socket_set.Base.{
  ℕ, suc, ◌+◌, ◌-◌, ◌%◌, ◌^◌, ◌<◌, ◌≤◌, Bool, true, false, ◌||◌, ltb, ◌==◌, if◌then◌else◌,
  Bool-cases, none, some, List, [], ◌∷◌, all_of, ◌≡◌, ◌&&◌, ◌++◌, refl, sym, ap, ◌∙◌, inl, inr,
  arith,
}
use impact_socket_set.Base.Int.{ℤ}
use impact_socket_set.Probe.Select.{
  FdSet, fd_zero, fd_set, descriptor_bits, Filled, fill, timeval, SystemSelect, select,
}

-- What should be asked: the descriptors that have a bit, a set as a test on the descriptors, and the
-- greatest of them.
abbrev pub has_bit : ℕ → ℤ → Bool
has_bit size handle = ltb (descriptor_bits handle) size

unfoldable pub member_of : List ℤ → FdSet
member_of [] k = false
member_of (handle ∷ rest) k = member_of rest k || k == descriptor_bits handle

abbrev larger : ℕ → ℕ → ℕ
larger a b = if ltb a b then b else a

unfoldable pub top : List ℤ → ℕ
top [] = 0
top (handle ∷ rest) = larger (descriptor_bits handle) (top rest)

larger_zero : (n : ℕ) → larger n 0 ≡ n
larger_zero n = ground arith

larger_assoc : (a b c : ℕ) → larger (larger a b) c ≡ larger a (larger b c)
larger_assoc a b c = ground arith

fill-result :
    (size : ℕ) (handles : List ℤ) (f : Filled)
    → fill size handles f ≡ (
        if all_of (has_bit size) handles
        then some (record {
          set = λ k. member_of handles k || f.set k;
          num_fds = larger f.num_fds (top handles);
        })
        else none)
unfolding fill member_of top
fill-result size [] f =
    ap (λ n. some (record { set = f.set; num_fds = n })) (sym (larger_zero f.num_fds))
fill-result size (handle ∷ rest) f = elim (Bool-cases (has_bit size handle)) [
  | inl a ↦
      let d = descriptor_bits handle in
      let higher = if ltb f.num_fds d then d else f.num_fds in
      rw a (
        fill-result size rest (record { set = fd_set d f.set; num_fds = higher })
        ∙ ap
            (λ s.
              if all_of (has_bit size) rest
              then some (record { set = s; num_fds = larger higher (top rest) })
              else none)
            (λ i k. sym (or_assoc (member_of rest k) (k == d) (f.set k)) i)
        ∙ ap
            (λ n.
              if all_of (has_bit size) rest
              then some (record { set = λ k. member_of (handle ∷ rest) k || f.set k; num_fds = n })
              else none)
            (larger_assoc f.num_fds d (top rest)))
  | inr a ↦ rw a refl
]

top-append : (xs ys : List ℤ) → top (xs ++ ys) ≡ larger (top xs) (top ys)
unfolding top
top-append [] ys = ground arith
top-append (x ∷ xs) ys =
    ap (larger (descriptor_bits x)) (top-append xs ys)
    ∙ sym (larger_assoc (descriptor_bits x) (top xs) (top ys))

all_of-append :
    (size : ℕ) (xs ys : List ℤ)
    → all_of (has_bit size) (xs ++ ys) ≡ (all_of (has_bit size) xs && all_of (has_bit size) ys)
all_of-append size [] ys = refl
all_of-append size (x ∷ xs) ys = ground (arith, all_of-append size xs ys)

top_bound : (size : ℕ) (xs : List ℤ) → all_of (has_bit size) xs ≡ true → top xs ≤ size
unfolding top
top_bound size [] h = omega arith
top_bound size (x ∷ xs) h =
    let later : top xs ≤ size = top_bound size xs (ground arith) in ground (arith, later)

or_false : (b : Bool) → (b || false) ≡ b
or_false true = refl
or_false false = refl

fill-fits :
    (size n : ℕ) (handles : List ℤ)
    → all_of (has_bit size) handles ≡ true
    → fill size handles (record { set = fd_zero; num_fds = n })
      ≡ some (record { set = member_of handles; num_fds = larger n (top handles) })
fill-fits size n handles h =
    fill-result size handles (record { set = fd_zero; num_fds = n })
    ∙ rw h (
        ap (λ s. some (record { set = s; num_fds = larger n (top handles) }))
          (λ i k. or_false (member_of handles k) i))

fill-faults :
    (size n : ℕ) (handles : List ℤ)
    → all_of (has_bit size) handles ≡ false
    → fill size handles (record { set = fd_zero; num_fds = n }) ≡ none
fill-faults size n handles h =
    fill-result size handles (record { set = fd_zero; num_fds = n }) ∙ rw h refl

width :
    (size : ℕ) (reads writes : List ℤ)
    → size < 2 ^ 32 - 1
    → all_of (has_bit size) reads ≡ true
    → all_of (has_bit size) writes ≡ true
    → (larger (larger 0 (top reads)) (top writes) + 1) % 2 ^ 32 ≡ suc (top (reads ++ writes))
width size reads writes small r w =
    ground (arith, top-append reads writes, top_bound size reads r, top_bound size writes w)

-- FD_SETSIZE is below 2^32. A descriptor that has no bit in an fd_set, -1 among them, makes select run
-- into undefined behaviour. Without one it asks for the two sets of descriptors, with the number
-- behind the greatest of them all and no time where the timeout is negative, and returns the answer.
pub select-asks {ℓ} :
    {World : Type ℓ} (size : ℕ) (system : SystemSelect World) (reads writes : List ℤ) (timeout : ℤ)
    (micro : ℕ) (world : World)
    → size < 2 ^ 32 - 1
    → select size system reads writes timeout micro world ≡ (
        if all_of (has_bit size) (reads ++ writes)
        then some (
            system
              (suc (top (reads ++ writes)))
              (member_of reads)
              (member_of writes)
              (timeval timeout micro)
              world)
        else none)
unfolding select
select-asks size system reads writes timeout micro world small =
    elim (Bool-cases (all_of (has_bit size) reads)) [
      | inr r ↦ rw (fill-faults size 0 reads r, all_of-append size reads writes, r, select) refl
      | inl r ↦ elim (Bool-cases (all_of (has_bit size) writes)) [
        | inr w ↦
            rw
              (
                fill-fits size 0 reads r,
                fill-faults size (larger 0 (top reads)) writes w,
                all_of-append size reads writes,
                r,
                w,
                select,
              )
              refl
        | inl w ↦
            rw
              (
                fill-fits size 0 reads r,
                fill-fits size (larger 0 (top reads)) writes w,
                all_of-append size reads writes,
                r,
                w,
                select,
              )
              (ap
                (λ n.
                  some
                    (system n (member_of reads) (member_of writes) (timeval timeout micro) world))
                (width size reads writes small r w))
      ]
    ]
