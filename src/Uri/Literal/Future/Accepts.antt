-- ===== src/Uri/Literal/Future/Accepts.antt =====
-- `_S_parse_ipv_future` accepts the texts of the grammar.
use impact_socket_set.Base.{
  ℕ, zero, suc, ◌+◌, ◌<◌, Bool, true, false, ltb, [], ◌∷◌, ◌++◌, Bytes, length, length-append, drop,
  get_or, all_of, ◌≡◌, refl, ap, ◌∙◌, arith,
}
use impact_socket_set.Abnf.{hexdig}
use impact_socket_set.Uri.{char_at}
use impact_socket_set.Uri.Chars.{is_hexdig}
use impact_socket_set.Uri.Literal.{future_char, skip_version, ipv_future}
use impact_socket_set.Uri.Literal.Future.{skip_version-end}

get_or-append_left : (a b : Bytes) (k : ℕ) → k < length a → get_or (a ++ b) k 0 ≡ get_or a k 0
get_or-append_left [] b k h = absurd (omega arith)
get_or-append_left (c ∷ a) b zero h = refl
get_or-append_left (c ∷ a) b (suc k) h = get_or-append_left a b k (omega arith)

all_of-at :
    (p : ℕ → Bool) (a : Bytes) (k : ℕ) → all_of p a ≡ true → k < length a → p (get_or a k 0) ≡ true
all_of-at p [] k h lt = absurd (omega arith)
all_of-at p (c ∷ a) zero h lt = ground arith
all_of-at p (c ∷ a) (suc k) h lt = all_of-at p a k (ground arith) (omega arith)

at_dot : (version rest : Bytes) → get_or (version ++ (b'.' ∷ rest)) (length version) 0 ≡ b'.'
at_dot [] rest = refl
at_dot (c ∷ version) rest = at_dot version rest

behind_second :
    (version rest : Bytes) (c d : ℕ)
    → drop (suc (suc (length version))) (version ++ (c ∷ d ∷ rest)) ≡ rest
behind_second [] rest c d = refl
behind_second (e ∷ version) rest c d = behind_second version rest c d

accepts-skip :
    (first : ℕ) (version : Bytes) (second : ℕ) (address : Bytes)
    → all_of is_hexdig (first ∷ version) ≡ true
    → let text = b'v' ∷ first ∷ (version ++ (b'.' ∷ second ∷ address)) in
      skip_version (length text) text 1 ≡ suc (suc (length version))
unfolding is_hexdig hexdig
accepts-skip first version second address h =
    let text = b'v' ∷ first ∷ (version ++ (b'.' ∷ second ∷ address)) in
    skip_version-end (length text) text 1 (suc (suc (length version))) (omega arith)
      (omega (arith, length-append version (b'.' ∷ second ∷ address)))
      (omega (arith, length-append version (b'.' ∷ second ∷ address)))
      (λ k lo hi. version_digit k lo hi) (ap is_hexdig (at_dot version (second ∷ address)))
  where
    version_digit :
        (k : ℕ)
        → 1 < k
        → k < suc (suc (length version))
        → is_hexdig (char_at (b'v' ∷ first ∷ (version ++ (b'.' ∷ second ∷ address))) k) ≡ true
    version_digit zero lo hi = absurd (omega arith)
    version_digit (suc zero) lo hi = absurd (omega arith)
    version_digit (suc (suc k)) lo hi =
        ap is_hexdig (get_or-append_left version (b'.' ∷ second ∷ address) k (omega arith))
        ∙ all_of-at is_hexdig version k (ground (arith, h)) (omega arith)

at_second :
    (version address : Bytes) (second : ℕ)
    → get_or (version ++ (b'.' ∷ second ∷ address)) (suc (length version)) 0 ≡ second
at_second [] address second = refl
at_second (c ∷ version) address second = at_second version address second

pub ipv_future-accepts :
    (first : ℕ) (version : Bytes) (second : ℕ) (address : Bytes)
    → all_of is_hexdig (first ∷ version) ≡ true
    → all_of future_char (second ∷ address) ≡ true
    → ipv_future (b'v' ∷ first ∷ (version ++ (b'.' ∷ second ∷ address))) ≡ true
unfolding ipv_future
ipv_future-accepts first version second address h a =
    let rest = version ++ (b'.' ∷ second ∷ address) in
    let text = b'v' ∷ first ∷ rest in
    let i = skip_version (length text) text 1 in
    let place : i ≡ suc (suc (length version)) = accepts-skip first version second address h in
    let place_1 : i + 1 ≡ suc (suc (suc (length version))) = omega (arith, place) in
    let place_2 : i + 2 ≡ suc (suc (suc (suc (length version)))) = omega (arith, place) in
    let dot : char_at text i ≡ b'.' = ap (char_at text) place ∙ at_dot version (second ∷ address) in
    let next : char_at text (i + 1) ≡ second =
      ap (char_at text) place_1 ∙ at_second version address second in
    let tail : drop (i + 2) text ≡ address =
      ap (λ n. drop n text) place_2 ∙ behind_second version address b'.' second in
    let long : ltb (length text) 4 ≡ false =
      ground (arith, length-append version (b'.' ∷ second ∷ address)) in
    let digit : is_hexdig first ≡ true = ground (arith, h) in rw (long, digit, dot, next, tail) a
