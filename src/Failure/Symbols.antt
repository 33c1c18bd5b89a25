-- ===== src/Failure/Symbols.antt =====
-- Source/utils/impact_error.cpp: what _M_demangle makes of a line of the stack.
use impact_socket_set.Base.{
  ℕ, suc, ◌+◌, ◌-◌, Bool, true, false, leb, if◌then◌else◌, Option, none, some, some, [], ◌∷◌, ◌++◌,
  Bytes, length, take, drop, take-append, drop-append, length-append, append_assoc, ◌≡◌, refl, ap,
  ◌∙◌, arith,
}
use impact_socket_set.Failure.Trace.{
  find_first, behind, from_start, open_mark, plus_mark, with_name, demangle_at, demangle, Lacks,
}
use impact_socket_set.Failure.Trace.{find_first-append, find_first-none}

-- The line with a readable name for its symbol: the name stands behind a parenthesis, and what was
-- before the symbol is gone. Without a symbol, or without a name for it, the line stays.
abbrev pub named : (Bytes → Option Bytes) → Bytes → Bytes → Bytes → Bytes
named readable line [] rest = line
named readable line (c ∷ symbol) rest = elim (readable (c ∷ symbol)) [
  | none ↦ line
  | some name ↦ b'(' ∷ (name ++ (b'+' ∷ rest))
]

written :
    (line rest : Bytes) (name : Option Bytes)
    → with_name line (plus_mark ∷ rest) name
      ≡ elim name [ none ↦ line | some text ↦ b'(' ∷ (text ++ (b'+' ∷ rest)) ]
written line rest none = refl
written line rest (some text) = refl

drop-add : (xs ys : Bytes) (n : ℕ) → drop (length xs + n) (xs ++ ys) ≡ drop n ys
drop-add [] ys n = ap (λ k. drop k ys) (omega arith)
drop-add (x ∷ xs) ys n =
    let e : suc (length xs) + n ≡ suc (length xs + n) = omega arith in
    ap (λ k. drop k (x ∷ (xs ++ ys))) e ∙ drop-add xs ys n

named_at :
    (readable : Bytes → Option Bytes) (head symbol rest : Bytes)
    → drop (length head) (head ++ (symbol ++ (plus_mark ∷ rest))) ≡ symbol ++ (plus_mark ∷ rest)
    → demangle_at readable
        (head ++ (symbol ++ (plus_mark ∷ rest)))
        (length head)
        (some (length head + length symbol))
      ≡ named readable (head ++ (symbol ++ (plus_mark ∷ rest))) symbol rest
named_at readable head [] rest dropped =
    let at_once : leb (length head + 0) (length head) ≡ true = ground arith in rw at_once refl
named_at readable head (c ∷ symbol) rest dropped =
    let name : Bytes = c ∷ symbol in
    let tail : Bytes = plus_mark ∷ rest in
    let line : Bytes = head ++ (name ++ tail) in
    let later : leb (length head + length name) (length head) ≡ false = ground arith in
    let width : length head + length name - length head ≡ length name = omega arith in
    let symbol_read : take (length head + length name - length head) (drop (length head) line)
        ≡ name =
      ap (λ n. take n (drop (length head) line)) width
      ∙ ap (take (length name)) dropped
      ∙ take-append name tail in
    let behind_it : drop (length head + length name) line ≡ tail =
      drop-add head (name ++ tail) (length name) ∙ drop-append name tail in
    let chosen : Bool → Bytes = λ b.
      if b
      then line
      else with_name line (drop (length head + length name) line)
          (readable (take (length head + length name - length head) (drop (length head) line))) in
    ap chosen later
    ∙ ap (λ s. with_name line (drop (length head + length name) line) (readable s)) symbol_read
    ∙ ap (λ t. with_name line t (readable name)) behind_it
    ∙ written line rest (readable name)

-- A line whose symbol begins at `start`.
demangle_from :
    (readable : Bytes → Option Bytes) (head symbol rest : Bytes)
    → behind (find_first open_mark (head ++ (symbol ++ (plus_mark ∷ rest)))) ≡ length head
    → Lacks plus_mark symbol
    → demangle readable (head ++ (symbol ++ (plus_mark ∷ rest)))
      ≡ named readable (head ++ (symbol ++ (plus_mark ∷ rest))) symbol rest
unfolding demangle
demangle_from readable head symbol rest starts lacks =
    let tail : Bytes = symbol ++ (plus_mark ∷ rest) in
    let line : Bytes = head ++ tail in
    let at_head : demangle readable line
        ≡ demangle_at readable line (length head)
            (from_start (length head) (find_first plus_mark (drop (length head) line))) =
      ap (λ n. demangle_at readable line n (from_start n (find_first plus_mark (drop n line))))
        starts in
    let dropped : drop (length head) line ≡ tail = drop-append head tail in
    let ends : find_first plus_mark (drop (length head) line) ≡ some (length symbol) =
      ap (find_first plus_mark) dropped ∙ find_first-append plus_mark symbol rest lacks in
    at_head
    ∙ ap (λ r. demangle_at readable line (length head) (from_start (length head) r)) ends
    ∙ named_at readable head symbol rest dropped

-- Of a line that has a parenthesis, a symbol behind it and a '+' behind that, the readable name takes
-- the place of the symbol and of all that was before it; without a symbol or a name the line stays.
pub demangle_symbol :
    (readable : Bytes → Option Bytes) (before symbol rest : Bytes)
    → Lacks open_mark before
    → Lacks plus_mark symbol
    → let line = (before ++ (open_mark ∷ [])) ++ (symbol ++ (plus_mark ∷ rest)) in
      demangle readable line ≡ named readable line symbol rest
demangle_symbol readable before symbol rest no_open no_plus =
    let tail : Bytes = symbol ++ (plus_mark ∷ rest) in
    let first : find_first open_mark ((before ++ (open_mark ∷ [])) ++ tail) ≡ some (length before) =
      ap (find_first open_mark) (append_assoc before (open_mark ∷ []) tail)
      ∙ find_first-append open_mark before tail no_open in
    let size : suc (length before) ≡ length (before ++ (open_mark ∷ [])) =
      omega (arith, length-append before (open_mark ∷ [])) in
    demangle_from readable (before ++ (open_mark ∷ [])) symbol rest (ap behind first ∙ size) no_plus

-- A line without a parenthesis is not left alone: all that stands before its '+' is taken for the
-- symbol, and a name for it is put behind a parenthesis that the line did not have.
pub demangle_bare :
    (readable : Bytes → Option Bytes) (symbol rest : Bytes)
    → Lacks open_mark (symbol ++ (plus_mark ∷ rest))
    → Lacks plus_mark symbol
    → let line = symbol ++ (plus_mark ∷ rest) in
      demangle readable line ≡ named readable line symbol rest
demangle_bare readable symbol rest no_open no_plus =
    demangle_from readable [] symbol rest
      (ap behind (find_first-none open_mark (symbol ++ (plus_mark ∷ rest)) no_open)) no_plus
