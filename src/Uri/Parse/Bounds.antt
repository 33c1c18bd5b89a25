-- ===== src/Uri/Parse/Bounds.antt =====
-- The place where the parser reads never leaves the text.
use impact_socket_set.Base.{
  ℕ, ◌+◌, ◌≤◌, ◌<◌, Bool, true, false, not, ◌&&◌, ◌||◌, ltb, leb, ◌==◌, Option, none, some, [], ◌∷◌,
  ◌++◌, Bytes, length, drop, ◌≡◌, arith,
}
use impact_socket_set.Abnf.{alpha}
use impact_socket_set.Errno.{ImpErr, uri_authinpath}
use impact_socket_set.Uri.{
  Uri, Context, Parsed, done, fail, fault, ◌>>=◌, fail_with, update, move_to, char_at, slice,
}
use impact_socket_set.Uri.Authority.{decode_into}
use impact_socket_set.Uri.Chars.{is_alpha, pchar, count_while}
use impact_socket_set.Uri.Ports.{PortMap}
use impact_socket_set.Uri.Parse.{
  parse_scheme, PathEnd, ended, doubled, scheme_char, path_loop, path_from, path_segments,
  parse_path, parse_hier_part, push_slash, query_char, parse_query, parse_fragment, finish,
  optional, colon, parse_uri, parse, post_parse,
}
use impact_socket_set.Uri.Authority.Bounds.{
  Bounded, Keeps, length-drop, char_at-inside, if-Bounded, decode_into-Bounded,
  parse_authority-Bounded,
}

>>=-Bounded :
    (text : Bytes) (p : Parsed) (f : Context → Parsed)
    → Bounded text p
    → Keeps text f
    → Bounded text (p >>= f)
>>=-Bounded text (done s) f b k = k s b
>>=-Bounded text (fail s) f b k = b
>>=-Bounded text fault f b k = tt

count_while_bound : (p : ℕ → Bool) (text : Bytes) → count_while p text ≤ length text
unfolding count_while
count_while_bound p [] = omega arith
count_while_bound p (c ∷ rest) = ground (arith, count_while_bound p rest)

-- A run of characters of a class that begins in the text ends in it.
run_bound :
    (p : ℕ → Bool) (text : Bytes) (i : ℕ)
    → i ≤ length text
    → i + count_while p (drop i text) ≤ length text
run_bound p text i h = omega (arith, count_while_bound p (drop i text), length-drop i text)

-- A place inside the text, from the class of its character.
letter-inside : (text : Bytes) (i : ℕ) → is_alpha (char_at text i) ≡ true → i < length text
unfolding is_alpha alpha
letter-inside text i h = char_at-inside text i (ground arith)

parse_scheme-Bounded : (text : Bytes) → Keeps text (parse_scheme text)
unfolding parse_scheme
parse_scheme-Bounded text s h =
    if-Bounded text (not (is_alpha (char_at text s.current_idx))) _ _ (λ e. h)
      (λ e.
        run_bound scheme_char text (s.current_idx + 1)
          (omega (arith, letter-inside text s.current_idx (ground (arith, e)))))

colon-Bounded : (text : Bytes) → Keeps text (colon text)
colon-Bounded text s h =
    if-Bounded text (leb (length text) s.current_idx) _ _ (λ e. h)
      (λ inside.
        if-Bounded text (not (char_at text s.current_idx == b':')) _ _ (λ e. h) (λ e. ground arith))

-- A place that a loop stops at.
abbrev Within : ℕ → PathEnd → Type 0
Within n (ended i) = i ≤ n
Within n (doubled i) = i ≤ n

path_loop-Within :
    (rest : Bytes) (i count n : ℕ) → i + length rest ≤ n → Within n (path_loop rest i count)
unfolding path_loop
path_loop-Within [] i count n h = omega arith
path_loop-Within (c ∷ rest) i count n h =
    branches (pchar c) (c == b'/') (count == 0) _ _
      (path_loop-Within rest (i + 1) (count + 1) n (omega arith))
      (path_loop-Within rest (i + 1) 0 n (omega arith))
  where
    branches :
        (p slash first : Bool) (a b : PathEnd)
        → Within n a
        → Within n b
        → Within n (elim p [
          | true ↦ a
          | false ↦ elim slash [
            | true ↦ elim first [ true ↦ doubled i | false ↦ b ]
            | false ↦ ended i
          ]
        ])
    branches true slash first a b ha hb = ha
    branches false true true a b ha hb = omega arith
    branches false true false a b ha hb = hb
    branches false false first a b ha hb = omega arith

path_from-Bounded :
    (text : Bytes) (first start : ℕ) → start ≤ length text → Keeps text (path_from text first start)
unfolding path_from
path_from-Bounded text first start h s hs = reached (path_loop (drop start text) start 0) (
    path_loop-Within (drop start text) start 0 (length text)
      (omega (arith, length-drop start text)))
  where
    reached :
        (o : PathEnd)
        → Within (length text) o
        → Bounded text (elim o [
          | doubled i ↦ fail_with uri_authinpath (move_to i s)
          | ended last ↦
              decode_into
                (λ t u. record u { path = u.path ++ t })
                false
                (slice text first last)
                (move_to last s)
        ])
    reached (doubled i) w = w
    reached (ended last) w =
        decode_into-Bounded text (slice text first last) false
          (λ t u. record u { path = u.path ++ t }) (move_to last s) w

path_segments-Bounded :
    (allow_colon : Bool) (text : Bytes) (first i : ℕ)
    → i ≤ length text
    → Keeps text (path_segments allow_colon text first i)
unfolding path_segments
path_segments-Bounded allow_colon text first i h s hs =
    if-Bounded text (char_at text i == b'/') _ _ (λ e. h)
      (λ e.
        if-Bounded text (char_at text i == b':') _ _
          (λ colon.
            if-Bounded text allow_colon _ _
              (λ e.
                path_from-Bounded text first (i + 1)
                  (omega (arith, char_at-inside text i (ground (arith, colon)))) s hs)
              (λ e. h))
          (λ e. path_from-Bounded text first i h s hs))

parse_path-Bounded :
    (expect_root allow_colon : Bool) (text : Bytes)
    → Keeps text (parse_path expect_root allow_colon text)
unfolding parse_path
parse_path-Bounded expect_root allow_colon text s h =
    if-Bounded text (leb (length text) i) _ _ (λ e. h)
      (λ inside.
        if-Bounded text (not expect_root) _ _
          (λ e. path_segments-Bounded allow_colon text i i h s h)
          (λ e.
            if-Bounded text (c == b'?' || c == b'#') _ _ (λ e. h)
              (λ e.
                if-Bounded text (not (c == b'/')) _ _ (λ e. h)
                  (λ e.
                    if-Bounded text (leb (length text) (i + 1)) _ _ (λ e. ground arith)
                      (λ e. path_segments-Bounded allow_colon text i (i + 1) (ground arith) s h)))))
  where
    i : ℕ
    i = s.current_idx

    c : ℕ
    c = char_at text i

parse_hier_part-Bounded : (text : Bytes) → Keeps text (parse_hier_part text)
unfolding parse_hier_part
parse_hier_part-Bounded text s h =
    if-Bounded text (leb (length text) i) _ _ (λ e. h)
      (λ inside.
        if-Bounded text (char_at text i == b'/') _ _
          (λ e.
            if-Bounded text (leb (length text) (i + 1)) _ _ (λ e. ground arith)
              (λ more.
                if-Bounded text (char_at text (i + 1) == b'/') _ _
                  (λ slash.
                    >>=-Bounded text _ (parse_path true true text)
                      (parse_authority-Bounded text (move_to (i + 2) s)
                        (omega (arith, char_at-inside text (i + 1) (ground (arith, slash)))))
                      (parse_path-Bounded true true text))
                  (λ e.
                    parse_path-Bounded false true text (update push_slash (move_to (i + 1) s))
                      (ground arith))))
          (λ e.
            if-Bounded text (pchar (char_at text i)) _ _
              (λ e. parse_path-Bounded false true text s h) (λ e. h)))
  where
    i : ℕ
    i = s.current_idx

parse_query-Bounded : (text : Bytes) → Keeps text (parse_query text)
unfolding parse_query
parse_query-Bounded text s h =
    decode_into-Bounded text _ false (λ t u. record u { query = t }) (move_to _ s)
      (run_bound query_char text s.current_idx h)

parse_fragment-Bounded : (text : Bytes) → Keeps text (parse_fragment text)
unfolding parse_fragment
parse_fragment-Bounded text s h =
    if-Bounded text (ltb s.current_idx (length text)) _ _
      (λ e. decode_into-Bounded text _ false (λ t u. record u { fragment = t }) s h) (λ e. h)

optional-Bounded :
    (text : Bytes) (delimiter : ℕ) (part : Context → Parsed)
    → Keeps text part
    → Keeps text (optional delimiter part text)
optional-Bounded text delimiter part k s h =
    if-Bounded text (ltb s.current_idx (length text) && char_at text s.current_idx == delimiter) _ _
      (λ e. k (move_to (s.current_idx + 1) s) (ground (arith, e))) (λ e. h)

finish-Bounded : (text : Bytes) (usr : PortMap) → Keeps text (finish usr)
finish-Bounded text usr s h = finished s.result
  where
    posted :
        (o : Option Uri)
        → Bounded text (elim o [ none ↦ fault | some u' ↦ done (record s { result = some u' }) ])
    posted none = tt
    posted (some u') = h

    finished :
        (r : Option Uri)
        → Bounded text (elim r [
          | none ↦ done s
          | some u ↦ elim (post_parse usr u) [
            | none ↦ fault
            | some u' ↦ done (record s { result = some u' })
          ]
        ])
    finished none = h
    finished (some u) = posted (post_parse usr u)

-- Whatever the text is, the parser stops at one of its places or right behind its end, whether it
-- accepts the text or not, if it does not run into undefined behaviour in `_S_post_parse`.
pub parse-Bounded :
    (usr : PortMap) (text : Bytes) (result : Option Uri) (errno : ImpErr)
    → Bounded text (parse usr text result errno)
unfolding parse parse_uri
parse-Bounded usr text result errno =
    if-Bounded text (leb (length text) 0) _ _ (λ e. omega arith)
      (λ e.
        >>=-Bounded text _ (finish usr)
          (>>=-Bounded text _ (optional b'#' (parse_fragment text) text)
            (>>=-Bounded text _ (optional b'?' (parse_query text) text)
              (>>=-Bounded text _ (parse_hier_part text)
                (>>=-Bounded text _ (colon text) (parse_scheme-Bounded text _ (omega arith))
                  (colon-Bounded text))
                (parse_hier_part-Bounded text))
              (optional-Bounded text b'?' (parse_query text) (parse_query-Bounded text)))
            (optional-Bounded text b'#' (parse_fragment text) (parse_fragment-Bounded text)))
          (finish-Bounded text usr))
