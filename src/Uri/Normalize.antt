-- ===== src/Uri/Normalize.antt =====
-- `_S_path_normalize` of uri.cpp.
pub mod Absolute
pub mod Relative
use impact_socket_set.Base.{
  ℕ, ◌+◌, Bool, true, false, ◌&&◌, ltb, leb, ◌==◌, if◌then◌else◌, Option, none, some, List, [], ◌∷◌,
  ◌++◌, Bytes, length, take, get_or, replicate,
}

-- The variables of the loop. The vector `dir` is a list with its last element first.
pub record Walk : Type 0 where
  pub output : Bytes
  pub dir : List ℕ
  pub dots : ℕ

abbrev pub begin : Walk
begin = record { output = []; dir = []; dots = 0 }

-- while (dots) { output_buffer.push_back('.'); dots--; }
abbrev pub flush : Walk → Bytes
flush w = w.output ++ replicate w.dots b'.'

-- A '/' behind "..": back to the last but one directory. To erase from a place behind the end is
-- undefined: `none`.
unfoldable pub leave : Bytes → List ℕ → Option Walk
leave output (top ∷ i ∷ rest) =
    if leb i (length output)
    then some (record { output = take i output; dir = i ∷ rest; dots = 0 })
    else none
leave output dir =
    if ltb 0 (length output) && get_or output 0 0 == b'/'
    then some (record { output = take 1 output; dir = dir; dots = 0 })
    else some (record { output = []; dir = dir; dots = 0 })

unfoldable pub slash : Walk → Option Walk
slash w =
    if w.dots == 0
    then some
        (record { output = w.output ++ (b'/' ∷ []); dir = (length w.output + 1) ∷ w.dir; dots = 0 })
    else if w.dots == 2
    then leave w.output w.dir
    else if w.dots == 1
    then some (record w { dots = 0 })
    else some (record w { output = flush w; dots = 0 })

unfoldable pub step : Walk → ℕ → Option Walk
step w c =
    if c == b'.'
    then some (record w { dots = w.dots + 1 })
    else if c == b'/'
    then slash w
    else some (record w { output = flush w ++ (c ∷ []); dots = 0 })

unfoldable pub walk : Bytes → Walk → Option Bytes
walk [] w = some (flush w)
walk (c ∷ rest) w = elim (step w c) [ none ↦ none | some w' ↦ walk rest w' ]

-- The new value of the string, or `none` for undefined behaviour.
unfoldable pub path_normalize : Bytes → Option Bytes
path_normalize path = walk path begin
