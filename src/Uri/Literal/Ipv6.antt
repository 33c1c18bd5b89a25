-- ===== src/Uri/Literal/Ipv6.antt =====
-- `_S_parse_ipv6_address` of uri.cpp, which reads the text from its end.
pub mod Embedded
pub mod Dotted
use impact_socket_set.Base.{
  ℕ, zero, suc, ◌+◌, ◌-◌, Bool, true, false, not, ◌&&◌, ◌||◌, ltb, leb, ◌==◌, within, if◌then◌else◌,
  Option, none, some, Bytes, length, get_or,
}
use impact_socket_set.Errno.{ImpErr, success, uri_invl_ip_lit}
use impact_socket_set.Uri.Chars.{is_hexdig}

abbrev char_at : Bytes → ℕ → ℕ
char_at text i = get_or text i 0

-- The variables of the loop for "dec.dec.dec.dec".
pub record DecState : Type 0 where
  pub state : ℕ
  pub dcnt : ℕ
  pub dgrp : ℕ

-- One character: the next state, `break` at a ':', or `return false`.
pub data DecStep : Type 0 where
  go : DecState → DecStep
  leave : DecStep
  reject : DecStep

abbrev count_digit : DecState → ℕ → DecStep
count_digit d state = go (record d { state = state; dcnt = d.dcnt + 1 })

-- The tests on '.' and ':', which close every branch but the first.
abbrev delimiter : DecState → ℕ → DecStep
delimiter d c =
    if c == b'.'
    then go (record { state = 5; dcnt = 0; dgrp = d.dgrp + 1 })
    else if c == b':'
    then leave
    else reject

unfoldable pub dec_state_5 : DecState → ℕ → DecStep
dec_state_5 d c =
    if d.dcnt == 0
    then (if within b'0' b'5' c
        then count_digit d 5
        else if within b'6' b'9' c
        then count_digit d 4
        else reject)
    else if d.dcnt == 1
    then (if c == b'5'
        then count_digit d 5
        else if within b'0' b'4' c
        then count_digit d 4
        else if within b'6' b'9' c
        then count_digit d 3
        else delimiter d c)
    else if d.dcnt == 2
    then (if c == b'2' then count_digit d 5 else delimiter d c)
    else delimiter d c

unfoldable pub dec_state_4 : DecState → ℕ → DecStep
dec_state_4 d c =
    if d.dcnt == 1
    then (if within b'0' b'4' c
        then count_digit d 4
        else if within b'5' b'9' c
        then count_digit d 3
        else delimiter d c)
    else if d.dcnt == 2
    then (if c == b'2' || c == b'1' then count_digit d 4 else delimiter d c)
    else delimiter d c

unfoldable pub dec_state_3 : DecState → ℕ → DecStep
dec_state_3 d c =
    if d.dcnt == 2 then (if c == b'1' then count_digit d 3 else delimiter d c) else delimiter d c

unfoldable pub dec_step : DecState → ℕ → DecStep
dec_step d c =
    if d.state == 5
    then dec_state_5 d c
    else if d.state == 4
    then dec_state_4 d c
    else if d.state == 3
    then dec_state_3 d c
    else reject

-- while (current_idx > 1) …: where the loop stops, with the number of groups.
unfoldable pub dec_loop : Bytes → ℕ → DecState → Option (ℕ × ℕ)
dec_loop text zero d = some (0, d.dgrp)
dec_loop text (suc zero) d = some (1, d.dgrp)
dec_loop text (suc (suc i)) d = elim (dec_step d (char_at text (suc (suc i)))) [
  | go d' ↦ dec_loop text (suc i) d'
  | leave ↦ some (suc (suc i), d.dgrp)
  | reject ↦ none
]

-- The variables of the loop over hexadecimal groups. `hgrp` falls only after a rise, since the
-- loop starts at a character that is no ':' or with a placeholder.
pub record HexState : Type 0 where
  pub hcnt : ℕ
  pub hgrp : ℕ
  pub have_placeholder : Bool
  pub p_idx_z : Bool

pub data HexStep : Type 0 where
  keep : HexState → HexStep
  quit : HexState → HexStep
  refuse : HexStep

unfoldable pub hex_step : HexState → ℕ → ℕ → HexStep
hex_step h i c =
    if is_hexdig c
    then (if ltb 4 (h.hcnt + 1) then refuse else keep (record h { hcnt = h.hcnt + 1 }))
    else if c == b':'
    then (if ltb 0 h.hcnt
        then (if h.hgrp == 8
            then quit (record h { hcnt = 0 })
            else keep (record h { hcnt = 0; hgrp = h.hgrp + 1 }))
        else if h.have_placeholder
        then refuse
        else keep (record h { have_placeholder = true; p_idx_z = i == 0; hgrp = h.hgrp - 1 }))
    else refuse

unfoldable pub hex_loop : Bytes → ℕ → HexState → Option (ℕ × HexState)
hex_loop text zero h = elim (hex_step h zero (char_at text zero)) [
  | keep h' ↦ some (zero, h')
  | quit h' ↦ some (zero, h')
  | refuse ↦ none
]
hex_loop text (suc i) h = elim (hex_step h (suc i) (char_at text (suc i))) [
  | keep h' ↦ hex_loop text i h'
  | quit h' ↦ some (suc i, h')
  | refuse ↦ none
]

-- The tests behind the loop; `groups` counts the last group too.
unfoldable pub hex_end : Bytes → Bool → ℕ → HexState → Bool
hex_end text have_ipv4 i h =
    let groups = h.hgrp + 1 in
    if not (i == 0)
    then false
    else if not h.p_idx_z && char_at text i == b':'
    then false
    else if h.have_placeholder
    then (if have_ipv4 && ltb 5 groups then false else not (not have_ipv4 && ltb 7 groups))
    else (if have_ipv4 && not (groups == 6) then false else groups == 8)

-- From the label `hex` on.
unfoldable pub hex : Bytes → ℕ → Bool → Bool → Bool
hex text i have_placeholder have_ipv4 =
    elim (hex_loop text i
      (record { hcnt = 0; hgrp = 0; have_placeholder = have_placeholder; p_idx_z = false })) [
        | none ↦ false
        | some (j, h) ↦ hex_end text have_ipv4 j h
      ]

abbrev verdict : Bool → Bool × ImpErr
verdict true = (true, success)
verdict false = (false, uri_invl_ip_lit)

-- The tests behind the decimal groups, where the loop stopped at `i`. The `return true` at a text
-- that begins with "::" leaves the error code.
unfoldable pub dec_end : Bytes → ℕ → ℕ → Bool × ImpErr
dec_end text i dgrp =
    if not (dgrp == 4)
    then (false, uri_invl_ip_lit)
    else if not (char_at text i == b':')
    then (false, uri_invl_ip_lit)
    else if not (char_at text (i - 1) == b':')
    then verdict (hex text (i - 1) false true)
    else if i - 1 == 0
    then (true, uri_invl_ip_lit)
    else verdict (hex text (i - 2) true true)

-- From the label `dec` on.
unfoldable pub dec : Bytes → ℕ → Bool × ImpErr
dec text i = elim (dec_loop text i (record { state = 5; dcnt = 0; dgrp = 1 })) [
  | none ↦ (false, uri_invl_ip_lit)
  | some (j, dgrp) ↦ dec_end text j dgrp
]

-- One of the last three characters before the last is a '.'.
abbrev has_dot : Bytes → ℕ → Bool
has_dot text i =
    char_at text (i - 1) == b'.' || char_at text (i - 2) == b'.' || char_at text (i - 3) == b'.'

unfoldable pub ipv6_address : Bytes → Bool × ImpErr
ipv6_address text =
    let size = length text in
    let i = size - 1 in
    if size == 0 || size == 1
    then (false, uri_invl_ip_lit)
    else if char_at text i == b':' && char_at text (i - 1) == b':'
    then (if i == 1 then (true, uri_invl_ip_lit) else verdict (hex text (i - 2) true false))
    else if not (is_hexdig (char_at text i))
    then (false, uri_invl_ip_lit)
    else if ltb size 9
    then (if ltb size 3 then (false, uri_invl_ip_lit) else verdict (hex text i false false))
    else if has_dot text i
    then dec text i
    else verdict (hex text i false false)
