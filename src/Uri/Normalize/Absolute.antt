-- ===== src/Uri/Normalize/Absolute.antt =====
-- Paths that begin with '/', and paths with no '.'.
use impact_socket_set.Base.{
  length-replicate, ℕ, zero, suc, ◌+◌, ◌≤◌, ◌==◌, Bool-cases, Option, none, some, List, [], ◌∷◌,
  ◌++◌, Bytes, length, length-append, length-take, take, replicate, inl, inr, append_assoc, ◌≡◌,
  refl, ap, arith,
}
use impact_socket_set.Uri.Normalize.{Walk, leave, slash, step, walk, path_normalize}

-- The places in `dir`, last first, for an output of `n` characters: none is behind the one after
-- it, and the first of all is 1.
abbrev Stack : ℕ → List ℕ → Type 0
Stack n [] = ⊥
Stack n (i ∷ []) = (i ≡ 1) × (1 ≤ n)
Stack n (i ∷ j ∷ rest) = (i ≤ n) × Stack i (j ∷ rest)

abbrev Rooted : Bytes → Type 0
Rooted text = (rest : Bytes) × (text ≡ b'/' ∷ rest)

-- The state of the walk over a path that begins with '/'; `n` characters were read.
record Inv (n : ℕ) (w : Walk) : Type 0 where
  rooted : Rooted w.output
  stack : Stack (length w.output) w.dir
  short : length w.output + w.dots ≤ n

Stack-grow : {n m : ℕ} (dir : List ℕ) → n ≤ m → Stack n dir → Stack m dir
Stack-grow [] h s = s
Stack-grow (i ∷ []) h s = (s.0, omega arith)
Stack-grow (i ∷ j ∷ rest) h s = (omega arith, s.1)

push-Stack : (n : ℕ) {m : ℕ} (dir : List ℕ) → m ≡ n + 1 → Stack n dir → Stack m ((n + 1) ∷ dir)
push-Stack n [] h s = absurd s
push-Stack n (i ∷ rest) h s = (omega arith, Stack-grow (i ∷ rest) (omega arith) s)

Stack-bottom : {n : ℕ} (dir : List ℕ) → Stack n dir → 1 ≤ n
Stack-bottom [] s = absurd s
Stack-bottom (i ∷ []) s = s.1
Stack-bottom (i ∷ j ∷ rest) s = omega (arith, Stack-bottom (j ∷ rest) s.1)

-- After one step there is a state, and the invariant holds of it.
abbrev Next : ℕ → Option Walk → Type 0
Next n none = ⊥
Next n (some w) = Inv n w

append-Inv :
    (n : ℕ) (w : Walk) (more : Bytes)
    → Inv n w
    → length w.output + length more ≤ n + 1
    → Inv (n + 1) (record w { output = w.output ++ more; dots = 0 })
append-Inv n w more inv h = record {
  rooted = (inv.rooted.0 ++ more, rw (inv.rooted.1));
  stack = Stack-grow w.dir (omega (arith, length-append w.output more)) inv.stack;
  short = omega (arith, length-append w.output more);
}

Stack-head : {n : ℕ} (i : ℕ) (rest : List ℕ) → Stack n (i ∷ rest) → (1 ≤ i) × (i ≤ n)
Stack-head i [] s = (omega arith, omega arith)
Stack-head i (j ∷ rest) s = (omega (arith, Stack-head j rest s.1), s.0)

Stack-self : (n i : ℕ) (rest : List ℕ) → Stack n (i ∷ rest) → Stack i (i ∷ rest)
Stack-self n i [] s = (s.0, omega arith)
Stack-self n i (j ∷ rest) s = (omega arith, s.1)

-- ".." goes back inside the output, and never behind its first '/'.
leave-Inv :
    (n : ℕ) (r : Bytes) (dir : List ℕ)
    → Stack (length (b'/' ∷ r)) dir
    → length (b'/' ∷ r) ≤ n
    → Next n (leave (b'/' ∷ r) dir)
leave-Inv n r [] s h = absurd s
leave-Inv n r (i ∷ []) s h =
    let e : leave (b'/' ∷ r) (i ∷ [])
        ≡ some (record { output = b'/' ∷ []; dir = i ∷ []; dots = 0 }) =
      unfold leave in ground arith in
    rw e (record { rooted = ([], refl); stack = (s.0, omega arith); short = omega arith })
leave-Inv n r (top ∷ zero ∷ rest) s h = absurd (omega (arith, Stack-head 0 rest s.1))
leave-Inv n r (top ∷ suc k ∷ rest) s h =
    let below = Stack-head (suc k) rest s.1 in
    let e : leave (b'/' ∷ r) (top ∷ suc k ∷ rest)
        ≡ some (record { output = b'/' ∷ take k r; dir = suc k ∷ rest; dots = 0 }) =
      unfold leave in ground arith in
    rw e (record {
      rooted = (take k r, refl);
      stack =
          Stack-grow (suc k ∷ rest) (omega (arith, length-take k r))
            (Stack-self top (suc k) rest s.1);
      short = omega (arith, length-take k r);
    })

leave-Rooted :
    (n : ℕ) (output : Bytes) (dir : List ℕ)
    → Rooted output
    → Stack (length output) dir
    → length output ≤ n
    → Next n (leave output dir)
leave-Rooted n [] dir r s h = cc (r.1)
leave-Rooted n (c ∷ rest) dir r s h = let e : c ≡ b'/' = cc (r.1) in rw e (leave-Inv n rest dir s h)

slash-Inv : (n : ℕ) (w : Walk) → Inv n w → Next (n + 1) (slash w)
unfolding slash
slash-Inv n w inv = elim (Bool-cases (w.dots == 0)) [
  | inl e ↦
      rw (Next, slash, e)
        (record {
          rooted = (inv.rooted.0 ++ (b'/' ∷ []), rw (inv.rooted.1));
          stack =
              push-Stack (length w.output) w.dir (omega (arith, length-append w.output (b'/' ∷ [])))
                inv.stack;
          short = omega (arith, inv.short, length-append w.output (b'/' ∷ []));
        })
  | inr e0 ↦ elim (Bool-cases (w.dots == 2)) [
    | inl e ↦
        rw (Next, slash, e0, e)
          (leave-Rooted (n + 1) w.output w.dir inv.rooted inv.stack (omega (arith, inv.short)))
    | inr e2 ↦ elim (Bool-cases (w.dots == 1)) [
      | inl e ↦
          rw (Next, slash, e0, e2, e)
            (record { rooted = inv.rooted; stack = inv.stack; short = omega (arith, inv.short) })
      | inr e ↦
          rw (Next, slash, e0, e2, e)
            (append-Inv n w (replicate w.dots b'.') inv
              (omega (arith, inv.short, length-replicate w.dots b'.')))
    ]
  ]
]

step-Inv : (n : ℕ) (w : Walk) (c : ℕ) → Inv n w → Next (n + 1) (step w c)
unfolding step
step-Inv n w c inv = elim (Bool-cases (c == b'.')) [
  | inl e ↦
      rw (Next, step, e)
        (record { rooted = inv.rooted; stack = inv.stack; short = omega (arith, inv.short) })
  | inr e ↦ elim (Bool-cases (c == b'/')) [
    | inl e' ↦ rw (Next, step, e, e') (slash-Inv n w inv)
    | inr e' ↦
        rw (Next, step, e, e', append_assoc)
          (append-Inv n w (replicate w.dots b'.' ++ (c ∷ [])) inv (
            omega (
              arith,
              inv.short,
              length-replicate w.dots b'.',
              length-append (replicate w.dots b'.') (c ∷ []),
            )))
  ]
]

-- A normalized path: it begins with '/' and has at most `n` characters.
abbrev Result : ℕ → Option Bytes → Type 0
Result n none = ⊥
Result n (some text) = Rooted text × (length text ≤ n)

Result-grow : {n m : ℕ} (o : Option Bytes) → n ≡ m → Result n o → Result m o
Result-grow none e h = h
Result-grow (some text) e h = (h.0, omega arith)

walk-Next :
    (n : ℕ) (o : Option Walk) (k : Walk → Option Bytes) (m : ℕ)
    → Next n o
    → ((w : Walk) → Inv n w → Result m (k w))
    → Result m (elim o [ none ↦ none | some w ↦ k w ])
walk-Next n none k m h next = absurd h
walk-Next n (some w) k m h next = next w h

walk-Result : (rest : Bytes) (n : ℕ) (w : Walk) → Inv n w → Result (n + length rest) (walk rest w)
unfolding walk
walk-Result [] n w inv = (
  (inv.rooted.0 ++ replicate w.dots b'.', rw (inv.rooted.1)),
  omega (
    arith,
    inv.short,
    length-append w.output (replicate w.dots b'.'),
    length-replicate w.dots b'.',
  ),
)
walk-Result (c ∷ rest) n w inv =
    walk-Next (n + 1) (step w c) (walk rest) (n + length (c ∷ rest)) (step-Inv n w c inv)
      (λ w' inv'. Result-grow (walk rest w') (omega arith) (walk-Result rest (n + 1) w' inv'))

-- The first '/' is the bottom of the stack.
rooted_start : Inv 1 (record { output = b'/' ∷ []; dir = 1 ∷ []; dots = 0 })
rooted_start = record { rooted = ([], refl); stack = (refl, omega arith); short = omega arith }

-- Normalizing a path that begins with '/' has no undefined behaviour, whatever the path holds:
-- every erased range lies inside the output. The result begins with '/', and is no longer.
pub path_normalize_absolute :
    (rest : Bytes)
    → (out : Bytes) × (path_normalize (b'/' ∷ rest) ≡ some (b'/' ∷ out))
      × (length out ≤ length rest)
unfolding path_normalize walk step slash
path_normalize_absolute rest = result_parts (walk-Result rest 1 _ rooted_start)
  where
    result_parts :
        {o : Option Bytes}
        → Result (1 + length rest) o
        → (out : Bytes) × (o ≡ some (b'/' ∷ out)) × (length out ≤ length rest)
    result_parts {o = none} h = absurd h
    result_parts {o = some text} h = (h.0.0, ap some h.0.1, omega (arith, h.1, ap length h.0.1))
