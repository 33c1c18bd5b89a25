-- ===== src/Failure/Tests.antt =====
-- Source/utils/impact_error.cpp on single lines of a stack.
use impact_socket_set.Base.{Option, some, [], ◌∷◌, ◌++◌, Bytes, ◌≡◌, refl, arith}
use impact_socket_set.Uri.Chars.{codes}
use impact_socket_set.Failure.Trace.{find_first, demangle, trace_lines, trace, impact_error}
use impact_socket_set.Failure.Symbols.{named, demangle_symbol}

-- A demangler that knows one name for all symbols.
abbrev readable : Bytes → Option Bytes
readable symbol = some (codes "f()")

abbrev line : Bytes
line = codes "./a.out(_Z1fv+0x1c) [0x40]"

demangled : demangle readable line ≡ codes "(f()+0x1c) [0x40]"
unfolding demangle find_first
demangled = refl

no_symbol : demangle readable (codes "./a.out(+0x1c) [0x40]") ≡ codes "./a.out(+0x1c) [0x40]"
unfolding demangle find_first
no_symbol = refl

-- The parenthesis is not one of the line.
no_parenthesis : demangle readable (codes "_Z1fv+0x1c") ≡ codes "(f()+0x1c"
unfolding demangle find_first
no_parenthesis = refl

whole :
    (impact_error readable (some (line ∷ line ∷ line ∷ [])) (codes "bad")).what
    ≡ codes "bad" ++ (10 ∷ codes "Trace: ") ++ (10 ∷ codes "(f()+0x1c) [0x40]" ++ (10 ∷ 10 ∷ []))
unfolding impact_error trace trace_lines demangle find_first
whole = refl

demangle_symbol_example :
    demangle readable line ≡ named readable line (codes "_Z1fv") (codes "0x1c) [0x40]")
demangle_symbol_example =
    demangle_symbol readable (codes "./a.out") (codes "_Z1fv") (codes "0x1c) [0x40]") (ground arith)
      (ground arith)
