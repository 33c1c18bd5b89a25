-- ===== src/Uri/Normalize/Relative.antt =====
-- Paths with no '.', and what goes wrong with the others.
use impact_socket_set.Base.{
  ℕ, ◌+◌, ◌<◌, Bool, true, not, ◌&&◌, ◌==◌, Bool-cases, none, some, List, [], ◌∷◌, ◌++◌, Bytes,
  all_of, length, length-append, inl, inr, append-nil, append_assoc, ◌≡◌, ◌≢◌, ==_iff, refl, sym,
  ap, ◌∙◌, arith,
}
use impact_socket_set.Uri.Normalize.{Walk, leave, slash, step, walk, path_normalize}

-- Between two names no dots wait.
abbrev at : Bytes → List ℕ → Walk
at output dir = record { output = output; dir = dir; dots = 0 }

-- A character of a name: neither '.' nor '/'.
abbrev pub is_plain : ℕ → Bool
is_plain c = not (c == b'.') && not (c == b'/')

walk_char :
    (c : ℕ) (rest output : Bytes) (dir : List ℕ)
    → is_plain c ≡ true
    → walk (c ∷ rest) (at output dir) ≡ walk rest (at (output ++ (c ∷ [])) dir)
unfolding walk
walk_char c rest output dir h =
    let e : step (at output dir) c ≡ some (at (output ++ (c ∷ [])) dir) =
      unfold step in ground (arith, append-nil output) in
    rw (e, walk)

walk_slash :
    (rest output : Bytes) (dir : List ℕ)
    → walk (b'/' ∷ rest) (at output dir)
      ≡ walk rest (at (output ++ (b'/' ∷ [])) ((length output + 1) ∷ dir))
unfolding walk step slash
walk_slash rest output dir = refl

walk_up :
    (rest output : Bytes) (dir : List ℕ)
    → walk (b'.' ∷ b'.' ∷ b'/' ∷ rest) (at output dir)
      ≡ elim (leave output dir) [ none ↦ none | some w ↦ walk rest w ]
unfolding walk step slash
walk_up rest output dir = refl

-- A whole name goes to the output.
walk_name :
    (name rest output : Bytes) (dir : List ℕ)
    → all_of is_plain name ≡ true
    → walk (name ++ rest) (at output dir) ≡ walk rest (at (output ++ name) dir)
walk_name [] rest output dir h = ap (λ o. walk rest (at o dir)) (sym (append-nil output))
walk_name (c ∷ name) rest output dir h =
    walk_char c (name ++ rest) output dir (ground arith)
    ∙ walk_name name rest (output ++ (c ∷ [])) dir (ground arith)
    ∙ ap (λ o. walk rest (at o dir)) (append_assoc output (c ∷ []) name)

abbrev pub up : Bytes → Bytes
up rest = b'/' ∷ b'.' ∷ b'.' ∷ b'/' ∷ rest

leave_first :
    (name : Bytes) (n : ℕ)
    → all_of is_plain name ≡ true
    → name ≢ []
    → leave (name ++ (b'/' ∷ [])) (n ∷ []) ≡ some (at [] (n ∷ []))
unfolding leave
leave_first [] n h ne = absurd (ne refl)
leave_first (c ∷ name) n h ne = ground arith

leave_short :
    (name : Bytes) (n m : ℕ) → length name + 1 < m → leave (name ++ (b'/' ∷ [])) (n ∷ m ∷ []) ≡ none
unfolding leave
leave_short name n m h = ground (arith, length-append name (b'/' ∷ []))

-- A relative path that goes up twice, "first/../second/../rest" with names free of '.' and '/',
-- the second shorter than the first, is undefined behaviour: the place that the first name left in `dir`
-- lies behind the end of the output.
path_normalize_faults :
    (first second rest : Bytes)
    → all_of is_plain first ≡ true
    → all_of is_plain second ≡ true
    → length second < length first
    → path_normalize (first ++ up (second ++ up rest)) ≡ none
unfolding path_normalize
path_normalize_faults first second rest hf hs lt =
    walk_name first (up (second ++ up rest)) [] [] hf
    ∙ walk_slash _ first []
    ∙ walk_up _ (first ++ (b'/' ∷ [])) _
    ∙ rw (leave_first first (length first + 1) hf (λ e. omega (arith, ap length e))) (
        walk_name second (up rest) [] ((length first + 1) ∷ []) hs
        ∙ walk_slash _ second _
        ∙ walk_up _ (second ++ (b'/' ∷ [])) _
        ∙ rw (leave_short second (length second + 1) (length first + 1) (omega arith)))

walk_no_dots :
    (text output : Bytes) (dir : List ℕ)
    → all_of (λ c. not (c == b'.')) text ≡ true
    → walk text (at output dir) ≡ some (output ++ text)
walk_no_dots [] output dir h = unfold walk in refl
walk_no_dots (c ∷ rest) output dir h = elim (Bool-cases (c == b'/')) [
  | inl e ↦
      let slash_eq : c ≡ b'/' = (==_iff c b'/').0 e in
      rw slash_eq (
        walk_slash rest output dir
        ∙ walk_no_dots rest (output ++ (b'/' ∷ [])) _ (ground arith)
        ∙ ap some (append_assoc output (b'/' ∷ []) rest))
  | inr e ↦
      walk_char c rest output dir (ground arith)
      ∙ walk_no_dots rest (output ++ (c ∷ [])) dir (ground arith)
      ∙ ap some (append_assoc output (c ∷ []) rest)
]

-- A path with no '.' is left as it is.
pub path_normalize_no_dots :
    (path : Bytes) → all_of (λ c. not (c == b'.')) path ≡ true → path_normalize path ≡ some path
unfolding path_normalize
path_normalize_no_dots path h = walk_no_dots path [] [] h

walk_dot :
    (rest output : Bytes) (dir : List ℕ)
    → walk (b'.' ∷ b'/' ∷ rest) (at output dir) ≡ walk rest (at output dir)
unfolding walk step slash
walk_dot rest output dir = refl

walk_end :
    (name output : Bytes) (dir : List ℕ)
    → all_of is_plain name ≡ true
    → walk name (at output dir) ≡ some (output ++ name)
walk_end name output dir h = walk_no_dots name output dir (plain_no_dots name h)
  where
    plain_no_dots :
        (name : Bytes) → all_of is_plain name ≡ true → all_of (λ c. not (c == b'.')) name ≡ true
    plain_no_dots [] h = refl
    plain_no_dots (c ∷ name) h = ground (arith, plain_no_dots name)

-- A name that ends in one '.' loses it together with the '/' behind it, and is joined to the next
-- name: "/first./second" becomes "/firstsecond", for names free of '.' and '/'.
path_normalize_joins :
    (first second : Bytes)
    → all_of is_plain first ≡ true
    → all_of is_plain second ≡ true
    → path_normalize (b'/' ∷ (first ++ (b'.' ∷ b'/' ∷ second))) ≡ some (b'/' ∷ (first ++ second))
unfolding path_normalize
path_normalize_joins first second hf hs =
    walk_slash _ [] []
    ∙ walk_name first (b'.' ∷ b'/' ∷ second) (b'/' ∷ []) (1 ∷ []) hf
    ∙ walk_dot second _ _
    ∙ walk_end second _ _ hs
