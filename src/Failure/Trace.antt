-- ===== src/Failure/Trace.antt =====
-- Source/utils/impact_error.cpp on Linux: the text of an impact_error, with the names of its stack
-- made readable. The calls of <execinfo.h> and abi::__cxa_demangle are parameters: the symbols of
-- the stack, and the readable name of a symbol, if there is one.
use impact_socket_set.Base.{
  ℕ, suc, ◌+◌, ◌-◌, leb, ◌==◌, if◌then◌else◌, Option, none, some, List, [], ◌∷◌, ◌++◌, Bytes, All,
  length, take, drop, ◌≡◌, ◌≢◌, refl, arith,
}
use impact_socket_set.Uri.Chars.{codes}

-- std::string::find_first_of for one character, on what is left of the text
unfoldable pub find_first : ℕ → Bytes → Option ℕ
find_first c [] = none
find_first c (x ∷ rest) =
    let later = find_first c rest in
    if x == c then some 0 else elim later [ none ↦ none | some i ↦ some (suc i) ]

-- find_first_of(..) + 1, where npos + 1 is 0
abbrev pub behind : Option ℕ → ℕ
behind none = 0
behind (some i) = suc i

-- find_first_of(.., start)
abbrev pub from_start : ℕ → Option ℕ → Option ℕ
from_start start none = none
from_start start (some i) = some (start + i)

abbrev pub open_mark : ℕ
open_mark = b'('

abbrev pub plus_mark : ℕ
plus_mark = b'+'

-- The readable name takes the place of all that stands before the tail.
abbrev pub with_name : Bytes → Bytes → Option Bytes → Bytes
with_name token tail none = token
with_name token tail (some name) = open_mark ∷ name ++ tail

abbrev pub demangle_at : (Bytes → Option Bytes) → Bytes → ℕ → Option ℕ → Bytes
demangle_at readable token start none = token
demangle_at readable token start (some end) =
    if leb end start
    then token
    else with_name token (drop end token) (readable (take (end - start) (drop start token)))

-- The test of `start` for npos is never true, since one was added.
unfoldable pub demangle : (Bytes → Option Bytes) → Bytes → Bytes
demangle readable token =
    let start = behind (find_first open_mark token) in
    demangle_at readable token start (from_start start (find_first plus_mark (drop start token)))

-- Each symbol on a line.
unfoldable pub trace_lines : (Bytes → Option Bytes) → List Bytes → Bytes
trace_lines readable [] = []
trace_lines readable (token ∷ rest) = demangle readable token ++ (0x0A ∷ trace_lines readable rest)

-- The first two frames are those of the exception itself; none is the failure of backtrace_symbols.
unfoldable pub trace : (Bytes → Option Bytes) → Option (List Bytes) → Bytes
trace readable none = codes "No Symbols"
trace readable (some symbols) = codes "Trace: " ++ (0x0A ∷ trace_lines readable (drop 2 symbols))

-- impact_error
pub record ImpactError : Type 0 where
  pub message : Bytes
  pub what : Bytes
  pub trace_text : Bytes

unfoldable pub impact_error : (Bytes → Option Bytes) → Option (List Bytes) → Bytes → ImpactError
impact_error readable symbols argument =
    let text = trace readable symbols in
    record {
      message = argument;
      what = argument ++ (0x0A ∷ text ++ (0x0A ∷ []));
      trace_text = text;
    }

-- A character is nowhere in a text.
abbrev pub Lacks : ℕ → Bytes → Type 0
Lacks c text = All (λ x. x ≢ c) text

pub find_first-append :
    (c : ℕ) (before rest : Bytes)
    → Lacks c before
    → find_first c (before ++ (c ∷ rest)) ≡ some (length before)
unfolding find_first
find_first-append c [] rest lacks = ground arith
find_first-append c (x ∷ before) rest (other, lacks) =
    ground (arith, other, find_first-append c before rest lacks)

pub find_first-none : (c : ℕ) (text : Bytes) → Lacks c text → find_first c text ≡ none
unfolding find_first
find_first-none c [] lacks = refl
find_first-none c (x ∷ text) (other, lacks) = ground (arith, other, find_first-none c text lacks)
