-- ===== src/Uri/Print.antt =====
-- The observers of uri.cpp that put a URI together again.
pub mod PortText
pub mod Compare
use impact_socket_set.Base.{
  ℕ, zero, suc, ◌+◌, ◌/◌, ◌%◌, Bool, true, false, not, ◌&&◌, ◌||◌, ltb, ◌==◌, if◌then◌else◌, [],
  ◌∷◌, ◌++◌, Bytes, length, get_or,
}
use impact_socket_set.Base.Int.{ℤ, pos, negsuc, is_nonneg}
use impact_socket_set.Uri.{Uri}
use impact_socket_set.Uri.Percent.{raw_decode}

-- std::to_string: the decimal digits, with one round of fuel for each.
unfoldable pub digits : ℕ → ℕ → Bytes
digits zero n = []
digits (suc fuel) n =
    let rest = digits fuel (n / 10) in
    if ltb n 10 then (b'0' + n) ∷ [] else rest ++ ((b'0' + n % 10) ∷ [])

-- An `int` has at most ten digits.
unfoldable pub to_string : ℤ → Bytes
to_string (pos n) = digits 10 n
to_string (negsuc n) = b'-' ∷ digits 10 (suc n)

-- `size()` as a test
abbrev pub is_empty : Bytes → Bool
is_empty text = length text == 0

unfoldable pub authority : Uri → Bytes
authority u =
    (if is_empty u.userinfo then [] else u.userinfo ++ (b'@' ∷ []))
    ++ (u.host
        ++ (if is_nonneg u.port && not u.has_default_port then b':' ∷ to_string u.port else []))

-- Whether the "//" is written.
abbrev pub shows_authority : Uri → Bool
shows_authority u = not (is_empty (authority u)) || u.has_auth

unfoldable pub hier_part : Uri → Bytes
hier_part u =
    (if shows_authority u
      then b'/' ∷ b'/' ∷ (authority u ++ (if is_empty u.path then [] else b'/' ∷ []))
      else [])
    ++ u.path

unfoldable pub abs_str : Uri → Bytes
abs_str u =
    (if is_empty u.scheme then [] else u.scheme ++ (b':' ∷ []))
    ++ ((if shows_authority u
          then b'/'
            ∷ b'/'
            ∷ (authority u
                ++ (if not (is_empty u.path) && not (get_or u.path 0 0 == b'/')
                    then b'/' ∷ []
                    else []))
          else [])
        ++ (u.path ++ (if is_empty u.query then [] else b'?' ∷ u.query)))

unfoldable pub str : Uri → Bytes
str u = abs_str u ++ (if is_empty u.fragment then [] else b'#' ∷ u.fragment)

-- The `norm_…` observers.
unfoldable pub norm_hier_part : Uri → Bytes
norm_hier_part u = raw_decode (hier_part u)

unfoldable pub norm_authority : Uri → Bytes
norm_authority u = raw_decode (authority u)

unfoldable pub norm_str : Uri → Bytes
norm_str u = raw_decode (str u)

unfoldable pub norm_abs_str : Uri → Bytes
norm_abs_str u = raw_decode (abs_str u)

unfoldable pub norm_userinfo : Uri → Bytes
norm_userinfo u = raw_decode u.userinfo

unfoldable pub norm_host : Uri → Bytes
norm_host u = raw_decode u.host

unfoldable pub norm_path : Uri → Bytes
norm_path u = raw_decode u.path

unfoldable pub norm_query : Uri → Bytes
norm_query u = raw_decode u.query

unfoldable pub norm_fragment : Uri → Bytes
norm_fragment u = raw_decode u.fragment

-- `operator=(uri&&)`: every member but `m_has_default_port_`.
unfoldable pub move_assign : Uri → Uri → Uri
move_assign u r = record r { has_default_port = u.has_default_port }
