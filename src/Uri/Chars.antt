-- ===== src/Uri/Chars.antt =====
-- The character classes of uri.cpp, and the loops that run over a class.
-- The classes of abnf_ops.h are taken for an unsigned `char`: those used here do not depend on it.
use Prim.Native.Char.{code}
use Prim.Native.String.{String}
use impact_socket_set.Base.{
  ℕ, ◌+◌, ◌-◌, Bool, false, ◌||◌, ◌==◌, within, if◌then◌else◌, [], ◌∷◌, Bytes,
}
use impact_socket_set.Abnf.{alpha, digit, hexdig}

abbrev pub codes : String → Bytes
codes String.[] = []
codes (String.◌∷◌ c s) = code c ∷ codes s

unfoldable pub is_alpha : ℕ → Bool
is_alpha = alpha false

unfoldable pub is_digit : ℕ → Bool
is_digit = digit false

unfoldable pub is_hexdig : ℕ → Bool
is_hexdig = hexdig false

unfoldable pub unreserved : ℕ → Bool
unreserved c = is_alpha c || is_digit c || c == b'-' || c == b'.' || c == b'_' || c == b'~'

unfoldable pub gen_delims : ℕ → Bool
gen_delims c =
    c == b':' || c == b'/' || c == b'?' || c == b'#' || c == b'[' || c == b']' || c == b'@'

unfoldable pub sub_delims : ℕ → Bool
sub_delims c =
    c == b'!'
    || c == b'$'
    || c == b'&'
    || c == 0x27
    || c == b'('
    || c == b')'
    || c == b'*'
    || c == b'+'
    || c == b','
    || c == b';'
    || c == b'='

unfoldable pub reserved : ℕ → Bool
reserved c = gen_delims c || sub_delims c

-- The test of the path loop: unreserved / sub-delims / ":" / "@" / "%".
unfoldable pub pchar : ℕ → Bool
pchar c = unreserved c || sub_delims c || c == b':' || c == b'@' || c == b'%'

-- ::tolower and std::toupper in the "C" locale
unfoldable pub tolower : ℕ → ℕ
tolower c = if within b'A' b'Z' c then c + 32 else c

unfoldable pub toupper : ℕ → ℕ
toupper c = if within b'a' b'z' c then c - 32 else c

-- The characters that `stream >> c` skips.
unfoldable pub is_space : ℕ → Bool
is_space c = c == 0x20 || within 0x09 0x0D c

-- while (i < size) { if (!p(data[i])) break; i++; } : how far `i` runs.
unfoldable pub count_while : (ℕ → Bool) → Bytes → ℕ
count_while p [] = 0
count_while p (c ∷ rest) = let n = count_while p rest in if p c then n + 1 else 0
