-- ===== src/Uri/Literal.antt =====
-- `_S_parse_ip_literal`, `_S_parse_ipv_future` and `_S_parse_ipv6_address` of uri.cpp.
-- None of them writes to the URI: each returns its verdict and the value left in `imp_errno`.
pub mod Ipv6
pub mod Future
use impact_socket_set.Base.{
  ℕ, zero, suc, ◌+◌, ◌-◌, Bool, true, false, not, ◌&&◌, ◌||◌, ltb, leb, ◌==◌, within, if◌then◌else◌,
  [], ◌∷◌, Bytes, length, drop, all_of,
}
use impact_socket_set.Errno.{ImpErr, success, uri_invl_ip_lit}
use impact_socket_set.Uri.{char_at, slice}
use impact_socket_set.Uri.Chars.{is_hexdig, unreserved, sub_delims, count_while}
use impact_socket_set.Uri.Literal.Ipv6.{ipv6_address}

abbrev pub Verdict : Type 0
Verdict = Bool × ImpErr

abbrev pub future_char : ℕ → Bool
future_char c = unreserved c || sub_delims c || c == b':'

-- The do-while loop: it starts at index 1, and goes on while the next character is a digit and
-- the index is below `size - 2`; the fuel is the size.
unfoldable pub skip_version : ℕ → Bytes → ℕ → ℕ
skip_version zero text i = i
skip_version (suc fuel) text i =
    elim (is_hexdig (char_at text (i + 1)) && ltb (i + 1) (length text - 2)) [
      | true ↦ skip_version fuel text (i + 1)
      | false ↦ i + 1
    ]

unfoldable pub ipv_future : Bytes → Bool
ipv_future text =
    let i = skip_version (length text) text 1 in
    if ltb (length text) 4
    then false
    else if not (char_at text 0 == b'v')
    then false
    else if not (is_hexdig (char_at text 1))
    then false
    else if not (char_at text i == b'.')
    then false
    else future_char (char_at text (i + 1)) && all_of future_char (drop (i + 2) text)

unfoldable pub parse_ipv_future : Bytes → Verdict
parse_ipv_future text = if ipv_future text then (true, success) else (false, uri_invl_ip_lit)

unfoldable pub parse_ip_literal : Bytes → Verdict
parse_ip_literal text =
    let inner = slice text 1 (length text - 1) in
    if ltb (length text) 4
    then (false, uri_invl_ip_lit)
    else if not (char_at text 0 == b'[' && char_at text (length text - 1) == b']')
    then (false, uri_invl_ip_lit)
    else if char_at inner 0 == b'v'
    then parse_ipv_future inner
    else ipv6_address inner
