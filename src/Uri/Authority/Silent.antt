-- ===== src/Uri/Authority/Silent.antt =====
-- A rejected authority for which `imp_errno` says success.
use impact_socket_set.Base.{
  ℕ, true, false, ◌==◌, Option, none, some, [], ◌∷◌, Bytes, length, all_of, ◌≡◌, refl, ap, arith,
}
use impact_socket_set.Abnf.{alpha, digit}
use impact_socket_set.Errno.{ImpErr, success}
use impact_socket_set.Uri.{Context, Parsed, done, fail, fault}
use impact_socket_set.Uri.Authority.{
  parse_parts, parse_userinfo, parse_host, parse_port, userinfo_char, host_char, also,
}
use impact_socket_set.Uri.Chars.{unreserved, sub_delims, is_alpha, is_digit}
use impact_socket_set.Uri.Percent.{percent_decode, settle, decode_loop, plain}

userinfo-fail :
    (userinfo : Bytes) (s : Context)
    → all_of userinfo_char userinfo ≡ true
    → (percent_decode userinfo false s.errno).accepted ≡ false
    → (s' : Context) × (parse_userinfo userinfo s ≡ fail s')
unfolding parse_userinfo
userinfo-fail userinfo s hu hd = rw (hu, hd) (_, refl)

settled :
    (text : Bytes) (o : Option Bytes)
    → (settle text o).accepted ≡ true
    → (settle text o).errno ≡ success
settled text none h = ground arith
settled text (some os) h = refl

decoded-success :
    (c : ℕ) (rest : Bytes) (e : ImpErr)
    → (percent_decode (c ∷ rest) true e).accepted ≡ true
    → (percent_decode (c ∷ rest) true e).errno ≡ success
unfolding percent_decode
decoded-success c rest e h = settled (c ∷ rest) (decode_loop true plain (c ∷ rest) []) h

no_literal : (c : ℕ) (host : Bytes) → all_of host_char (c ∷ host) ≡ true → (c == b'[') ≡ false
unfolding unreserved sub_delims is_alpha is_digit alpha digit
no_literal c host h = ground arith

host-done :
    (c : ℕ) (host : Bytes) (s : Context)
    → all_of host_char (c ∷ host) ≡ true
    → ((e : ImpErr) → (percent_decode (c ∷ host) true e).accepted ≡ true)
    → (s' : Context) × (parse_host (c ∷ host) s ≡ done s') × (s'.errno ≡ success)
unfolding parse_host
host-done c host s hh ha =
    let some_host : (length (c ∷ host) == 0) ≡ false = ground arith in
    rw (some_host, no_literal c host hh, hh, ha s.errno)
      (_, refl, decoded-success c host s.errno (ha s.errno))

also-fail : (f : Context → Parsed) (s s' : Context) → f s ≡ done s' → also (fail s) f ≡ fail s'
also-fail f s s' e =
    ap (λ p. elim p as (λ x. Parsed) [ done s' ↦ fail s' | fail s' ↦ fail s' | fault ↦ fault ]) e

-- A user information of allowed characters that fails to decode, before a host that is a name of
-- allowed characters and decodes, and with no port, makes `_S_parse_authority` return false while
-- `imp_errno` holds the code of success.
parse_parts_silent :
    (userinfo : Bytes) (c : ℕ) (host : Bytes) (s : Context)
    → all_of userinfo_char userinfo ≡ true
    → (percent_decode userinfo false s.errno).accepted ≡ false
    → all_of host_char (c ∷ host) ≡ true
    → ((e : ImpErr) → (percent_decode (c ∷ host) true e).accepted ≡ true)
    → (s' : Context) × (parse_parts (record { userinfo = userinfo; host = c ∷ host; port = [] }) s
        ≡ fail s')
      × (s'.errno ≡ success)
unfolding parse_parts parse_port
parse_parts_silent userinfo c host s hu hd hh ha =
    let u = userinfo-fail userinfo s hu hd in
    let h = host-done c host u.0 hh ha in
    rw (u.1, also-fail (parse_host (c ∷ host)) u.0 h.0 h.1) (_, refl, h.2)
