-- ===== src/Uri/Authority/Bounds.antt =====
-- Where `_S_parse_authority` leaves the place at which the parser reads: inside the text.
use impact_socket_set.Base.{
  ℕ, zero, suc, ◌+◌, ◌-◌, ◌≤◌, ◌<◌, Bool, true, false, not, ltb, ◌==◌, all_of, if◌then◌else◌, [],
  ◌∷◌, Bytes, length, drop, ◌≡◌, refl, arith,
}
use impact_socket_set.Uri.{Uri, Context, Parsed, done, fail, fault, fail_with, char_at}
use impact_socket_set.Uri.Authority.{
  decode_into, parse_userinfo, parse_host, parse_port, also, mark_authority, parse_parts,
  parse_authority, userinfo_char, host_char, scan, Scan, stop, error, Marks, mark, MarkStep, go,
  leave, reject, split, Split, parts, bad, Parts, unmarked,
}
use impact_socket_set.Uri.Chars.{is_digit}
use impact_socket_set.Uri.Literal.{parse_ip_literal}
use impact_socket_set.Uri.Percent.{percent_decode}

-- Where the parser stands, true or false, is a place of the text or the one behind its end.
abbrev pub Bounded : Bytes → Parsed → Type 0
Bounded text (done s) = s.current_idx ≤ length text
Bounded text (fail s) = s.current_idx ≤ length text
Bounded text fault = Unit

abbrev pub Keeps : Bytes → (Context → Parsed) → Type 0
Keeps text f = (s : Context) → s.current_idx ≤ length text → Bounded text (f s)

pub length-drop : (n : ℕ) (text : Bytes) → length (drop n text) ≡ length text - n
length-drop zero text = omega arith
length-drop (suc n) [] = omega arith
length-drop (suc n) (c ∷ text) = omega (arith, length-drop n text)

pub char_at-inside : (text : Bytes) (i : ℕ) → 0 < char_at text i → i < length text
char_at-inside [] i h = absurd (omega arith)
char_at-inside (c ∷ text) zero h = omega arith
char_at-inside (c ∷ text) (suc i) h = omega (arith, char_at-inside text i h)

pub if-Bounded :
    (text : Bytes) (b : Bool) (x y : Parsed)
    → (b ≡ true → Bounded text x)
    → (b ≡ false → Bounded text y)
    → Bounded text (if b then x else y)
if-Bounded text true x y hx hy = hx refl
if-Bounded text false x y hx hy = hy refl

pub decode_into-Bounded :
    (text part : Bytes) (lower : Bool) (put : Bytes → Uri → Uri)
    → Keeps text (decode_into put lower part)
decode_into-Bounded text part lower put s h =
    if-Bounded text (percent_decode part lower s.errno).accepted _ _ (λ e. h) (λ e. h)

abbrev ScanWithin : ℕ → Scan → Type 0
ScanWithin n (stop i m) = i ≤ n
ScanWithin n (error i e) = i ≤ n

scan-ScanWithin :
    (rest : Bytes) (i n : ℕ) (m : Marks) → i + length rest ≤ n → ScanWithin n (scan rest i m)
unfolding scan
scan-ScanWithin [] i n m h = omega arith
scan-ScanWithin (c ∷ rest) i n m h =
    marked (mark m i c) (λ m'. scan-ScanWithin rest (i + 1) n m' (omega arith))
  where
    marked :
        (k : MarkStep)
        → ((m' : Marks) → ScanWithin n (scan rest (i + 1) m'))
        → ScanWithin n
            (elim k [ go m' ↦ scan rest (i + 1) m' | leave ↦ stop i m | reject e ↦ error i e ])
    marked (go m') next = next m'
    marked leave next = omega arith
    marked (reject e) next = omega arith

also-Bounded :
    (text : Bytes) (p : Parsed) (f : Context → Parsed)
    → Bounded text p
    → Keeps text f
    → Bounded text (also p f)
also-Bounded text (done s) f b k = k s b
also-Bounded text (fail s) f b k = failed (f s) (k s b)
  where
    failed :
        (p : Parsed)
        → Bounded text p
        → Bounded text (elim p [ done s' ↦ fail s' | fail s' ↦ fail s' | fault ↦ fault ])
    failed (done s') b = b
    failed (fail s') b = b
    failed fault b = tt
also-Bounded text fault f b k = tt

mark_authority-Bounded :
    (text : Bytes) (p : Parsed) → Bounded text p → Bounded text (mark_authority p)
mark_authority-Bounded text (done s) b = b
mark_authority-Bounded text (fail s) b = b
mark_authority-Bounded text fault b = tt

parse_userinfo-Bounded : (text part : Bytes) → Keeps text (parse_userinfo part)
unfolding parse_userinfo
parse_userinfo-Bounded text part s h =
    if-Bounded text (not (all_of userinfo_char part)) _ _ (λ e. h)
      (λ e. decode_into-Bounded text part false (λ t u. record u { userinfo = t }) s h)

parse_host-Bounded : (text part : Bytes) → Keeps text (parse_host part)
unfolding parse_host
parse_host-Bounded text part s h =
    if-Bounded text (length part == 0) _ _ (λ e. h)
      (λ e.
        if-Bounded text (char_at part 0 == b'[') _ _
          (λ e.
            if-Bounded text (parse_ip_literal part).0 _ _
              (λ e. decode_into-Bounded text part true (λ t u. record u { host = t }) _ h) (λ e. h))
          (λ e.
            if-Bounded text (not (all_of host_char part)) _ _ (λ e. h)
              (λ e. decode_into-Bounded text part true (λ t u. record u { host = t }) s h)))

parse_port-Bounded : (text part : Bytes) → Keeps text (parse_port part)
unfolding parse_port
parse_port-Bounded text part s h =
    if-Bounded text (not (all_of is_digit part)) _ _ (λ e. h)
      (λ e.
        if-Bounded text (ltb 9 (length part)) _ _ (λ e. h)
          (λ e. if-Bounded text (length part == 0) _ _ (λ e. h) (λ e. h)))

parse_parts-Bounded : (text : Bytes) (p : Parts) → Keeps text (parse_parts p)
unfolding parse_parts
parse_parts-Bounded text p s h = mark_authority-Bounded text _ (
    also-Bounded text _ (parse_port p.port)
      (also-Bounded text _ (parse_host p.host) (parse_userinfo-Bounded text p.userinfo s h)
        (parse_host-Bounded text p.host))
      (parse_port-Bounded text p.port))

pub parse_authority-Bounded : (text : Bytes) → Keeps text (parse_authority text)
unfolding parse_authority
parse_authority-Bounded text s h = scanned (scan (drop first text) first (unmarked first)) (
    scan-ScanWithin (drop first text) first (length text) _ (omega (arith, length-drop first text)))
  where
    first : ℕ
    first = s.current_idx

    split_up :
        (i : ℕ) (k : Split)
        → i ≤ length text
        → Bounded text (elim k [
          | bad e ↦ fail_with e (record s { current_idx = i })
          | parts p ↦ parse_parts p (record s { current_idx = i })
        ])
    split_up i (bad e) w = w
    split_up i (parts p) w = parse_parts-Bounded text p (record s { current_idx = i }) w

    scanned :
        (k : Scan)
        → ScanWithin (length text) k
        → Bounded text (elim k [
          | error i e ↦ fail_with e (record s { current_idx = i })
          | stop i m ↦ elim (split text first i m) [
            | bad e ↦ fail_with e (record s { current_idx = i })
            | parts p ↦ parse_parts p (record s { current_idx = i })
          ]
        ])
    scanned (error i e) w = w
    scanned (stop i m) w = split_up i (split text first i m) w
