-- ===== src/Grammar.antt =====
-- Libraries/ABNF_Parser/main.cpp: the recognizers of the words of RFC 5234 on an istringstream.
-- The stream is its text, the place of the next character, and eofbit and failbit; `get`, `peek`,
-- `tellg`, `clear` and `seekg` are those of the library, whose sentry sets failbit on a stream that
-- is not good. A place that `tellg` cannot tell is none. The end of file is -1, and as a char 0xFF.
pub mod Blank
pub mod Binary
pub mod Longest
pub mod Named
mod Tests
use mathlib.Core.Option
use impact_socket_set.Base.{
  ℕ, zero, suc, ◌+◌, ◌-◌, ◌<◌, Bool, true, false, not, ◌&&◌, ◌||◌, ltb, within, ◌==◌, if◌then◌else◌,
  Option, none, some, List, [], ◌∷◌, Bytes, length, get_or, drop,
}

pub record Input : Type 0 where
  pub text : Bytes
  pub place : ℕ
  pub eof_bit : Bool
  pub fail_bit : Bool

abbrev pub is_good : Input → Bool
is_good s = not s.eof_bit && not s.fail_bit

-- A recognizer's verdict, and the stream that it leaves.
abbrev pub Verdict : Type 0
Verdict = Bool × Input

-- (char)EOF
abbrev pub end_char : ℕ
end_char = 0xFF

unfoldable pub get : Input → ℕ × Input
get s =
    if not (is_good s)
    then (end_char, record s { fail_bit = true })
    else if ltb s.place (length s.text)
    then (get_or s.text s.place end_char, record s { place = s.place + 1 })
    else (end_char, record s { eof_bit = true; fail_bit = true })

unfoldable pub peek : Input → ℕ × Input
peek s =
    if not (is_good s)
    then (end_char, record s { fail_bit = true })
    else if ltb s.place (length s.text)
    then (get_or s.text s.place end_char, s)
    else (end_char, record s { eof_bit = true })

unfoldable pub tellg : Input → Option ℕ × Input
tellg s = if not (is_good s) then (none, record s { fail_bit = true }) else (some s.place, s)

-- clear() and seekg(offset, beg)
unfoldable pub rewind : Option ℕ → Input → Input
rewind none s = record s { eof_bit = false; fail_bit = true }
rewind (some offset) s = record s { place = offset; eof_bit = false; fail_bit = false }

-- if (!success) { clear(); seekg(offset); } return success;
abbrev pub conclude : Option ℕ → Verdict → Verdict
conclude offset (success, s) = (success, if success then s else rewind offset s)

abbrev pub wsp : ℕ → Bool
wsp c = c == 0x20 || c == 0x09

abbrev pub vchar : ℕ → Bool
vchar c = within 0x21 0x7E c

abbrev pub bit : ℕ → Bool
bit c = c == b'0' || c == b'1'

abbrev pub digit : ℕ → Bool
digit c = within 0x30 0x39 c

abbrev pub alpha : ℕ → Bool
alpha c = within 0x41 0x5A c || within 0x61 0x7A c

abbrev pub hexdig : ℕ → Bool
hexdig c = digit c || (within b'A' b'F' c || within b'a' b'f' c)

abbrev pub crlf : ℕ → ℕ → Bool
crlf a b = a == 0x0D && b == 0x0A

-- while (test(a)) a = get(), with fuel for what is left of the text
unfoldable pub get_while : ℕ → (ℕ → Bool) → ℕ → Input → ℕ × Input
get_while zero test a s = (a, s)
get_while (suc fuel) test a s =
    let (next, t) = get s in
    let rest = get_while fuel test next t in if test a then rest else (a, s)

-- while (test(peek())) get(), and the character that ends it
unfoldable pub skip_while : ℕ → (ℕ → Bool) → Input → ℕ × Input
skip_while zero test s = peek s
skip_while (suc fuel) test s =
    let (c, t) = peek s in
    let rest = skip_while fuel test (get t).1 in if test c then rest else (c, t)

-- Fuel for a loop that moves over one character in each round.
abbrev pub enough : Input → ℕ
enough s = suc (length s.text - s.place)

unfoldable pub comment : Input → Verdict
comment s =
    let (offset, s1) = tellg s in
    let (c, s2) = get s1 in
    conclude offset (
      if c == b';'
      then (let (a, s3) = get s2 in
          let (a2, s4) = get_while (enough s3) (λ x. wsp x || vchar x) a s3 in
          let (b, s5) = get s4 in (crlf a2 b, s5))
      else (false, s2))

-- The two calls of get are not ordered: `swapped` is the order of the arguments from the right.
unfoldable pub c_nl : Bool → Input → Verdict
c_nl swapped s =
    let (offset, s1) = tellg s in
    let (found, s2) = comment s1 in
    let (x, s3) = get s2 in
    let (y, s4) = get s3 in
    conclude offset (if found then (true, s2) else (if swapped then crlf y x else crlf x y, s4))

unfoldable pub c_wsp : Bool → Input → Verdict
c_wsp swapped s =
    let (offset, s1) = tellg s in
    let (c, s2) = peek s1 in
    let (line, s3) = c_nl swapped s2 in
    let (d, s4) = get s3 in
    conclude offset (if wsp c then (true, s2) else if line then (wsp d, s4) else (false, s3))

-- while (c_wsp(stream)) continue; `none` if it has not ended after so many rounds.
unfoldable pub skip_c_wsp : ℕ → Bool → Input → Option Input
skip_c_wsp zero swapped s = none
skip_c_wsp (suc fuel) swapped s =
    let (again, t) = c_wsp swapped s in
    let rest = skip_c_wsp fuel swapped t in if again then rest else some t

unfoldable pub rulename : Input → Verdict
rulename s =
    let (c, s1) = peek s in
    if alpha c
    then (let (_, s2) = get s1 in
        (true, (skip_while (enough s2) (λ x. alpha x || digit x || x == b'-') s2).1))
    else (false, s1)

-- `none` where one of its loops over white space does not end.
unfoldable pub defined_as : ℕ → Bool → Input → Option Verdict
defined_as fuel swapped s =
    let (offset, s1) = tellg s in
    elim (skip_c_wsp fuel swapped s1) [
      | none ↦ none
      | some s2 ↦
          (let (a, s3) = get s2 in
            let (b, s4) = peek s3 in
            let s5 = if a == b'=' && b == b'/' then (get s4).1 else s4 in
            if a == b'='
            then Option.map (λ s6. (true, s6)) (skip_c_wsp fuel swapped s5)
            else some (false, rewind offset s5))
    ]

-- A text between two marks: char_val and prose_val.
unfoldable pub quoted : ℕ → ℕ → (ℕ → Bool) → Input → Verdict
quoted opening closing inner s =
    let (offset, s1) = tellg s in
    let (c, s2) = get s1 in
    conclude offset (
      if c == opening
      then (let (_, s3) = skip_while (enough s2) inner s2 in
          let (d, s4) = get s3 in (d == closing, s4))
      else (false, s2))

unfoldable pub char_val : Input → Verdict
char_val = quoted 0x22 0x22 (λ c. within 0x20 0x21 c || within 0x23 0x7E c)

unfoldable pub prose_val : Input → Verdict
prose_val = quoted b'<' b'>' (λ c. within 0x20 0x3D c || within 0x3F 0x7E c)

-- extension_type
pub data Extension : Type 0 where
  no_extension range space : Extension

-- The extension that a '-' or a '.' makes of the one so far; none is the failure.
abbrev pub extend : ℕ → Extension → Option Extension
extend c no_extension = if c == b'-' then some range else some space
extend c range = none
extend c space = if c == b'-' then none else some space

abbrev pub extends : ℕ → Bool
extends c = c == b'-' || c == b'.'

-- The do-while loop of bin_val, dec_val and hex_val.
unfoldable pub series : ℕ → (ℕ → Bool) → Extension → Input → Verdict
series zero test so_far s = (false, s)
series (suc fuel) test so_far s =
    let (c, s1) = get s in
    let (_, s2) = skip_while (enough s1) test s1 in
    let (d, s3) = peek s2 in
    if not (test c)
    then (false, s1)
    else if not (extends d)
    then (true, s3)
    else elim (extend d so_far) [
      | none ↦ (false, s3)
      | some next ↦ series fuel test next (get s3).1
    ]

-- bin_val, dec_val and hex_val, up to the letter and the digits.
unfoldable pub value : ℕ → (ℕ → Bool) → Input → Verdict
value letter test s =
    let (offset, s1) = tellg s in
    let (c, s2) = get s1 in
    conclude offset (if c == letter then series (enough s2) test no_extension s2 else (false, s2))

unfoldable pub bin_val : Input → Verdict
bin_val = value b'd' bit

unfoldable pub dec_val : Input → Verdict
dec_val = value b'd' digit

unfoldable pub hex_val : Input → Verdict
hex_val = value b'x' hexdig

-- a(stream) || b(stream)
abbrev pub or_else : (Input → Verdict) → (Input → Verdict) → Input → Verdict
or_else a b s = let r = a s in if r.0 then r else b r.1

unfoldable pub num_val : Input → Verdict
num_val s =
    let (offset, s1) = tellg s in
    let (c, s2) = get s1 in
    conclude offset
      (if c == b'%' then or_else bin_val (or_else dec_val hex_val) s2 else (false, s2))

unfoldable pub repeat : Input → Verdict
repeat s =
    let (offset, s1) = tellg s in
    let (c, s2) = get s1 in
    let digits : Input → Verdict = λ t. (true, (skip_while (enough t) digit t).1) in
    conclude offset (
      if c == b'*'
      then digits s2
      else if digit c
      then (let (_, s3) = skip_while (enough s2) digit s2 in
          let (d, s4) = peek s3 in if d == b'*' then digits (get s4).1 else (true, s4))
      else (false, s2))
