-- ===== src/Uri/Print/Compare.antt =====
-- `hier_part` beside `abs_str`, which prints the same part of a URI.
use impact_socket_set.Base.{
  ℕ, Bool, true, false, not, ◌&&◌, ◌==◌, if◌then◌else◌, [], ◌∷◌, ◌++◌, Bytes, get_or, append_assoc,
  ◌≡◌, refl, sym, ap, arith,
}
use impact_socket_set.Uri.{Uri}
use impact_socket_set.Uri.Print.{is_empty, authority, shows_authority, hier_part, abs_str}

abbrev pub scheme_text : Uri → Bytes
scheme_text u = if is_empty u.scheme then [] else u.scheme ++ (b':' ∷ [])

abbrev pub query_text : Uri → Bytes
query_text u = if is_empty u.query then [] else b'?' ∷ u.query

is_empty-cons : (c : ℕ) (text : Bytes) → is_empty (c ∷ text) ≡ false
is_empty-cons c text = ground arith

-- The "//", the authority and the path, with either test for the '/' between them.
same_separator :
    (shown : Bool) (auth path rest : Bytes)
    → (shown && get_or path 0 0 == b'/') ≡ false
    → (if shown
          then b'/'
            ∷ b'/'
            ∷ (auth
                ++ (if not (is_empty path) && not (get_or path 0 0 == b'/') then b'/' ∷ [] else []))
          else [])
        ++ (path ++ rest)
      ≡ ((if shown then b'/' ∷ b'/' ∷ (auth ++ (if is_empty path then [] else b'/' ∷ [])) else [])
          ++ path)
        ++ rest
same_separator false auth path rest h = refl
same_separator true auth [] rest h =
    ap (λ t. b'/' ∷ b'/' ∷ t) (sym (append_assoc (auth ++ []) [] rest))
same_separator true auth (c ∷ path) rest h =
    rw (h, is_empty-cons c path)
      (ap (λ t. b'/' ∷ b'/' ∷ t) (sym (append_assoc (auth ++ (b'/' ∷ [])) (c ∷ path) rest)))

-- Where no authority is written, or the path does not begin with '/', `abs_str` prints the scheme,
-- the result of `hier_part`, and the query.
pub abs_str-hier_part :
    (u : Uri)
    → (shows_authority u && get_or u.path 0 0 == b'/') ≡ false
    → abs_str u ≡ scheme_text u ++ (hier_part u ++ query_text u)
unfolding abs_str hier_part
abs_str-hier_part u h =
    ap (◌++◌ (scheme_text u))
      (same_separator (shows_authority u) (authority u) u.path (query_text u) h)

doubled :
    (auth path : Bytes) (rest : Bytes)
    → path ≡ b'/' ∷ rest
    → (auth ++ (if is_empty path then [] else b'/' ∷ [])) ++ path ≡ auth ++ (b'/' ∷ b'/' ∷ rest)
doubled auth path rest e =
    rw (e, is_empty-cons b'/' rest) (append_assoc auth (b'/' ∷ []) (b'/' ∷ rest))

single :
    (auth path : Bytes) (rest more : Bytes)
    → path ≡ b'/' ∷ rest
    → (auth ++ (if not (is_empty path) && not (get_or path 0 0 == b'/') then b'/' ∷ [] else []))
        ++ (path ++ more)
      ≡ auth ++ (b'/' ∷ (rest ++ more))
single auth path rest more e =
    rw (e, is_empty-cons b'/' rest) (append_assoc auth [] (b'/' ∷ (rest ++ more)))

-- Where an authority is written and the path begins with '/', `hier_part` writes that '/' twice
-- and `abs_str` once.
hier_part_doubles :
    (u : Uri) (rest : Bytes)
    → shows_authority u ≡ true
    → u.path ≡ b'/' ∷ rest
    → (hier_part u ≡ b'/' ∷ b'/' ∷ (authority u ++ (b'/' ∷ b'/' ∷ rest)))
      × (abs_str u
          ≡ scheme_text u ++ (b'/' ∷ b'/' ∷ (authority u ++ (b'/' ∷ (rest ++ query_text u)))))
unfolding abs_str hier_part
hier_part_doubles u rest h e = rw h (
  ap (λ t. b'/' ∷ b'/' ∷ t) (doubled (authority u) u.path rest e),
  ap (λ t. scheme_text u ++ (b'/' ∷ b'/' ∷ t)) (single (authority u) u.path rest (query_text u) e),
)
