-- ===== src/Uri/Parse.antt =====
-- `uri::parse`: the scheme, the hierarchical part, the query, the fragment, and what follows.
pub mod Faults
pub mod Bounds
use impact_socket_set.Base.{
  ℕ, zero, suc, ◌+◌, ◌-◌, Bool, true, false, not, ◌&&◌, ◌||◌, ltb, leb, ◌==◌, if◌then◌else◌, Option,
  none, some, [], ◌∷◌, ◌++◌, Bytes, length, drop, map,
}
use impact_socket_set.Base.Int.{negsuc}
use impact_socket_set.Errno.{
  ImpErr, success, uri_scheme, uri_nocolon, uri_pathabempty, uri_pathdelim, uri_colon,
  uri_authinpath, uri_multi_at,
}
use impact_socket_set.Uri.{
  Uri, Context, Parsed, done, fail, fault, ◌>>=◌, fail_with, update, move_to, char_at, slice,
}
use impact_socket_set.Uri.Authority.{decode_into, parse_authority}
use impact_socket_set.Uri.Chars.{is_alpha, is_digit, pchar, tolower, count_while}
use impact_socket_set.Uri.Normalize.{path_normalize}
use impact_socket_set.Uri.Percent.{percent_decode}
use impact_socket_set.Uri.Ports.{PortMap, PortState, find_port, default_port}

-- `_S_clear` leaves `m_has_default_port_`.
abbrev clear : Uri → Uri
clear u = record {
  scheme = [];
  userinfo = [];
  host = [];
  path = [];
  query = [];
  fragment = [];
  port = negsuc 0;
  has_auth = false;
  has_default_port = u.has_default_port;
}

abbrev scheme_char : ℕ → Bool
scheme_char c = is_alpha c || is_digit c || c == b'+' || c == b'-' || c == b'.'

unfoldable pub parse_scheme : Bytes → Context → Parsed
parse_scheme text s =
    let first = s.current_idx in
    let last = first + 1 + count_while scheme_char (drop (first + 1) text) in
    if not (is_alpha (char_at text first))
    then fail_with uri_scheme s
    else done (update (λ u. record u { scheme = slice text first last }) (move_to last s))

-- Where the path loop stops, and whether it returns there, at a second '/' in a row.
pub data PathEnd : Type 0 where
  ended : ℕ → PathEnd
  doubled : ℕ → PathEnd

-- The first number is the place, the second `pchar_count`.
unfoldable pub path_loop : Bytes → ℕ → ℕ → PathEnd
path_loop [] i count = ended i
path_loop (c ∷ rest) i count = elim (pchar c) [
  | true ↦ path_loop rest (i + 1) (count + 1)
  | false ↦ elim (c == b'/') [
    | true ↦ elim (count == 0) [ true ↦ doubled i | false ↦ path_loop rest (i + 1) 0 ]
    | false ↦ ended i
  ]
]

-- The path from `first` on, of which the loop has still to read what stands behind `start`.
unfoldable pub path_from : Bytes → ℕ → ℕ → Context → Parsed
path_from text first start s = elim (path_loop (drop start text) start 0) [
  | doubled i ↦ fail_with uri_authinpath (move_to i s)
  | ended last ↦
      decode_into (λ t u. record u { path = u.path ++ t }) false (slice text first last)
        (move_to last s)
]

-- Behind the optional root.
unfoldable pub path_segments : Bool → Bytes → ℕ → ℕ → Context → Parsed
path_segments allow_colon text first i s =
    if char_at text i == b'/'
    then fail_with uri_pathdelim (move_to i s)
    else if char_at text i == b':'
    then (if allow_colon then path_from text first (i + 1) s else fail_with uri_colon (move_to i s))
    else path_from text first i s

unfoldable pub parse_path : Bool → Bool → Bytes → Context → Parsed
parse_path expect_root allow_colon text s =
    let i = s.current_idx in
    let c = char_at text i in
    if leb (length text) i
    then done s
    else if not expect_root
    then path_segments allow_colon text i i s
    else if c == b'?' || c == b'#'
    then done s
    else if not (c == b'/')
    then fail_with uri_pathabempty s
    else if leb (length text) (i + 1)
    then done (update (λ u. record u { path = b'/' ∷ [] }) (move_to (i + 1) s))
    else path_segments allow_colon text i (i + 1) s

abbrev push_slash : Uri → Uri
push_slash u = record u { path = u.path ++ (b'/' ∷ []) }

unfoldable pub parse_hier_part : Bytes → Context → Parsed
parse_hier_part text s =
    let i = s.current_idx in
    if leb (length text) i
    then done s
    else if char_at text i == b'/'
    then (if leb (length text) (i + 1)
        then done (update push_slash (move_to (i + 1) s))
        else if char_at text (i + 1) == b'/'
        then parse_authority text (move_to (i + 2) s) >>= parse_path true true text
        else parse_path false true text (update push_slash (move_to (i + 1) s)))
    else if pchar (char_at text i)
    then parse_path false true text s
    else done s

abbrev query_char : ℕ → Bool
query_char c = pchar c || c == b'/' || c == b'?'

unfoldable pub parse_query : Bytes → Context → Parsed
parse_query text s =
    let first = s.current_idx in
    let last = first + count_while query_char (drop first text) in
    decode_into (λ t u. record u { query = t }) false (slice text first last) (move_to last s)

-- Everything up to the end of the text.
unfoldable pub parse_fragment : Bytes → Context → Parsed
parse_fragment text s =
    if ltb s.current_idx (length text)
    then decode_into (λ t u. record u { fragment = t }) false (drop s.current_idx text) s
    else done s

-- `_S_post_parse`; `none` is undefined behaviour in it.
abbrev pub with_port : Uri → PortState → Uri
with_port u p = record u { port = p.port; has_default_port = p.has_default_port }

unfoldable pub post_parse : PortMap → Uri → Option Uri
post_parse usr u =
    let scheme = map tolower u.scheme in
    elim (path_normalize u.path) [
      | none ↦ none
      | some path ↦ elim (default_port (find_port scheme usr) u.port) [
        | none ↦ none
        | some p ↦ some (with_port (record u { scheme = scheme; path = path }) p)
      ]
    ]

abbrev finish : PortMap → Context → Parsed
finish usr s = elim s.result [
  | none ↦ done s
  | some u ↦ elim (post_parse usr u) [
    | none ↦ fault
    | some u' ↦ done (record s { result = some u' })
  ]
]

-- One of the two optional parts, behind its delimiter.
abbrev optional : ℕ → (Context → Parsed) → Bytes → Context → Parsed
optional delimiter part text s =
    if ltb s.current_idx (length text) && char_at text s.current_idx == delimiter
    then part (move_to (s.current_idx + 1) s)
    else done s

abbrev colon : Bytes → Context → Parsed
colon text s =
    if leb (length text) s.current_idx
    then fail_with uri_nocolon s
    else if not (char_at text s.current_idx == b':')
    then fail_with uri_nocolon s
    else done (move_to (s.current_idx + 1) s)

unfoldable pub parse_uri : PortMap → Bytes → Context → Parsed
parse_uri usr text s₀ =
    let s = record (update clear s₀) { errno = success } in
    let parsed =
      parse_scheme text s
      >>= colon text
      >>= parse_hier_part text
      >>= optional b'?' (parse_query text) text
      >>= optional b'#' (parse_fragment text) text
      >>= finish usr in
    if leb (length text) s.current_idx then done s else parsed

-- uri::parse(value, result), with the user dictionary and the value of `imp_errno` before.
unfoldable pub parse : PortMap → Bytes → Option Uri → ImpErr → Parsed
parse usr text result errno =
    parse_uri usr text (record { current_idx = 0; result = result; errno = errno })
