-- ===== src/Uri/Authority.antt =====
-- `_S_parse_authority` of uri.cpp, and the parsers of its three parts.
pub mod Bounds
pub mod Silent
use impact_socket_set.Base.{
  ℕ, zero, suc, ◌+◌, ◌-◌, ◌*◌, Bool, true, false, not, ◌&&◌, ◌||◌, ltb, leb, ◌==◌, if◌then◌else◌,
  Option, none, some, [], ◌∷◌, Bytes, length, drop, all_of,
}
use impact_socket_set.Base.Int.{pos}
use impact_socket_set.Errno.{
  ImpErr, uri_multi_at, uri_multi_ip_lit, uri_ip_lit_mismatch, uri_colon, uri_userinfo_sym,
  uri_host_sym, uri_port_sym, uri_port_limit,
}
use impact_socket_set.Uri.{
  Uri, Context, Parsed, done, fail, fault, fail_with, update, char_at, slice,
}
use impact_socket_set.Uri.Chars.{is_digit, unreserved, sub_delims}
use impact_socket_set.Uri.Literal.{parse_ip_literal}
use impact_socket_set.Uri.Percent.{percent_decode}

-- The counters and places of the scan. A place that was not seen is `last_idx - 1`.
pub record Marks : Type 0 where
  pub at_count : ℕ
  pub colon_count_after : ℕ
  pub ip_lit_a_count : ℕ
  pub ip_lit_b_count : ℕ
  pub at_index : ℕ
  pub port_colon_index : ℕ
  pub ip_lit_a_index : ℕ
  pub ip_lit_b_index : ℕ

abbrev pub unmarked : ℕ → Marks
unmarked last_idx = record {
  at_count = 0;
  colon_count_after = 0;
  ip_lit_a_count = 0;
  ip_lit_b_count = 0;
  at_index = last_idx - 1;
  port_colon_index = last_idx - 1;
  ip_lit_a_index = last_idx - 1;
  ip_lit_b_index = last_idx - 1;
}

pub data MarkStep : Type 0 where
  go : Marks → MarkStep
  leave : MarkStep
  reject : ImpErr → MarkStep

-- One character, at the place `i`.
unfoldable pub mark : Marks → ℕ → ℕ → MarkStep
mark m i c =
    if c == b'@'
    then (if ltb 1 (m.at_count + 1)
        then reject uri_multi_at
        else go (record m { at_count = m.at_count + 1; at_index = i }))
    else if c == b':'
    then go (record m {
      colon_count_after =
          (if m.at_count == 0 then m.colon_count_after else m.colon_count_after + 1);
      port_colon_index = i;
    })
    else if c == b'['
    then (if ltb 1 (m.ip_lit_a_count + 1)
        then reject uri_multi_ip_lit
        else go (record m { ip_lit_a_count = m.ip_lit_a_count + 1; ip_lit_a_index = i }))
    else if c == b']'
    then (if ltb 1 (m.ip_lit_b_count + 1)
        then reject uri_multi_ip_lit
        else go (record m { ip_lit_b_count = m.ip_lit_b_count + 1; ip_lit_b_index = i }))
    else if unreserved c || sub_delims c || c == b'%'
    then go m
    else leave

-- The end of the scan, or the error that it returns with.
pub data Scan : Type 0 where
  stop : ℕ → Marks → Scan
  error : ℕ → ImpErr → Scan

unfoldable pub scan : Bytes → ℕ → Marks → Scan
scan [] i m = stop i m
scan (c ∷ rest) i m = elim (mark m i c) [
  | go m' ↦ scan rest (i + 1) m'
  | leave ↦ stop i m
  | reject e ↦ error i e
]

pub record Parts : Type 0 where
  pub userinfo : Bytes
  pub host : Bytes
  pub port : Bytes

-- The checks behind the scan, and the three strings; `stop_idx` is where the scan ended.
unfoldable pub host_and_port : Bytes → ℕ → ℕ → Marks → Bytes → Option Parts
host_and_port text last_idx stop_idx m userinfo =
    let host_index = if m.at_count == 0 then last_idx else m.at_index + 1 in
    let literal = slice text m.ip_lit_a_index (m.ip_lit_b_index + 1) in
    let port = slice text (m.port_colon_index + 1) stop_idx in
    if not (m.ip_lit_a_count == 0)
    then (if ltb m.ip_lit_b_index m.port_colon_index
        then (if not (m.port_colon_index - 1 == m.ip_lit_b_index)
            then none
            else some (record { userinfo = userinfo; host = literal; port = port }))
        else some (record { userinfo = userinfo; host = literal; port = [] }))
    else if leb last_idx m.port_colon_index
    then some (record {
      userinfo = userinfo;
      host = slice text host_index m.port_colon_index;
      port = port;
    })
    else some (record { userinfo = userinfo; host = slice text host_index stop_idx; port = [] })

pub data Split : Type 0 where
  parts : Parts → Split
  bad : ImpErr → Split

unfoldable pub split : Bytes → ℕ → ℕ → Marks → Split
split text last_idx stop_idx m =
    let found = leb last_idx m.at_index in
    let userinfo = if found then slice text last_idx m.at_index else [] in
    let next_idx = if found then m.at_index + 1 else last_idx in
    if not (m.ip_lit_a_count == m.ip_lit_b_count)
    then bad uri_ip_lit_mismatch
    else if ltb m.ip_lit_b_index m.ip_lit_a_index
    then bad uri_ip_lit_mismatch
    else if m.ip_lit_a_count == 0 && (not (m.at_count == 0) && ltb 1 m.colon_count_after)
    then bad uri_colon
    else elim (host_and_port text next_idx stop_idx m userinfo) [
      | none ↦ bad uri_colon
      | some p ↦ parts p
    ]

abbrev pub userinfo_char : ℕ → Bool
userinfo_char c = unreserved c || sub_delims c || c == b'%' || c == b':'

abbrev pub host_char : ℕ → Bool
host_char c = unreserved c || sub_delims c || c == b'%'

-- `bool success = _S_percent_decode(&data, lower); result->field = data; return success;`
abbrev pub decode_into : (Bytes → Uri → Uri) → Bool → Bytes → Context → Parsed
decode_into put lower text s =
    let a = percent_decode text lower s.errno in
    let s' = record (update (put a.out) s) { errno = a.errno } in
    if a.accepted then done s' else fail s'

unfoldable pub parse_userinfo : Bytes → Context → Parsed
parse_userinfo text s =
    if not (all_of userinfo_char text)
    then fail_with uri_userinfo_sym s
    else decode_into (λ t u. record u { userinfo = t }) false text s

unfoldable pub parse_host : Bytes → Context → Parsed
parse_host text s =
    let (ok, errno) = parse_ip_literal text in
    let put = λ (t : Bytes) (u : Uri). record u { host = t } in
    if length text == 0
    then done s
    else if char_at text 0 == b'['
    then (if ok then decode_into put true text (record s { errno = errno }) else fail_with errno s)
    else if not (all_of host_char text)
    then fail_with uri_host_sym s
    else decode_into put true text s

-- std::stoi on digits
unfoldable pub stoi : Bytes → ℕ → ℕ
stoi [] n = n
stoi (c ∷ rest) n = stoi rest (n * 10 + (c - b'0'))

unfoldable pub parse_port : Bytes → Context → Parsed
parse_port text s =
    if not (all_of is_digit text)
    then fail_with uri_port_sym s
    else if ltb 9 (length text)
    then fail_with uri_port_limit s
    else if length text == 0
    then done s
    else done (update (λ u. record u { port = pos (stoi text 0) }) s)

-- `success &= f(…)`: the call is made whatever came before.
abbrev pub also : Parsed → (Context → Parsed) → Parsed
also (done s) f = f s
also (fail s) f = elim (f s) [ done s' ↦ fail s' | fail s' ↦ fail s' | fault ↦ fault ]
also fault f = fault

abbrev pub mark_authority : Parsed → Parsed
mark_authority (done s) = done (update (λ u. record u { has_auth = true }) s)
mark_authority (fail s) = fail (update (λ u. record u { has_auth = true }) s)
mark_authority fault = fault

-- The parts are parsed in contexts of their own, with the same `result`.
unfoldable pub parse_parts : Parts → Context → Parsed
parse_parts p s =
    mark_authority
      (also (also (parse_userinfo p.userinfo s) (parse_host p.host)) (parse_port p.port))

unfoldable pub parse_authority : Bytes → Context → Parsed
parse_authority text s =
    let first = s.current_idx in
    elim (scan (drop first text) first (unmarked first)) [
      | error i e ↦ fail_with e (record s { current_idx = i })
      | stop i m ↦ elim (split text first i m) [
        | bad e ↦ fail_with e (record s { current_idx = i })
        | parts p ↦ parse_parts p (record s { current_idx = i })
      ]
    ]
