-- ===== src/Utf8/Trailing.antt =====
-- How `deserialize` reads a leading byte and what may follow it.
use impact_socket_set.Base.{
  ℕ, zero, suc, ◌+◌, ◌-◌, ◌*◌, ◌^◌, ◌<◌, ◌==◌, Bool, true, false, if◌then◌else◌, Option, List, [],
  ◌∷◌, ◌++◌, Bytes, all_of, length, ◌≡◌, refl, sym, ap, subst, ◌∙◌, arith,
}
use impact_socket_set.Base.Bits.{bit_and_field}
use impact_socket_set.Errno.{Answer, ImpErr, utf8_badhead, utf8_badtrail}
use impact_socket_set.Utf8.{Reader, next, stop, push_all, step, read}
use impact_socket_set.Utf8.Steps.{
  step_ascii, step_header_1, step_header_2, step_header_3, step_trailer, read-next, ready,
}
use impact_socket_set.Utf8.Groups.{
  is_trail, is_stray, Lead, alone, with_one, with_two, with_three, value,
}

-- The reader with `n` bytes to come, and a value that has room for them in 32 bits.
abbrev pub owing : ℕ → ℕ → Option (List ℕ) → Reader
owing n v result = record { state = n; symbol = v; result = result }

abbrev Fits : ℕ → ℕ → Type 0
Fits v zero = Unit
Fits v (suc n) = (v < 2 ^ 26) × ((low : ℕ) → low < 64 → Fits (v * 64 + low) n)

Lead-Fits : {c n q : ℕ} → Lead c n q → Fits q n
Lead-Fits (alone h) = tt
Lead-Fits (with_one lo hi) = (omega arith, λ low h. tt)
Lead-Fits (with_two lo hi) = (omega arith, λ low h. (omega arith, λ low' h'. tt))
Lead-Fits (with_three lo hi) =
    (omega arith, λ low h. (omega arith, λ low' h'. (omega arith, λ low'' h''. tt)))

step_trail :
    (n v t : ℕ) (result : Option (List ℕ))
    → v < 2 ^ 26
    → is_trail t ≡ true
    → step (owing (suc n) v result) t
      ≡ next (
          owing n
            (v * 64 + (t - 0x80))
            (if n == 0 then push_all result ((v * 64 + (t - 0x80)) ∷ []) else result))
step_trail n v t result small trails =
    let e : 0x80 + (t - 0x80) ≡ t = ground arith in
    ap (step (owing (suc n) v result)) (sym e)
    ∙ step_trailer n v (t - 0x80) result small (ground arith)

-- What is owed where `k` bytes and one more have to follow these.
owed : Bytes → ℕ → ℕ
owed [] k = suc k
owed (t ∷ ts) k = suc (owed ts k)

owed-length : (ts : Bytes) (k : ℕ) → owed ts k ≡ length ts + suc k
unfolding owed
owed-length [] k = omega arith
owed-length (t ∷ ts) k = omega (arith, owed-length ts k)

-- Bytes that trail a symbol, with more to come.
read_some :
    (ts rest : Bytes) (v k : ℕ) (result : Option (List ℕ))
    → Fits v (owed ts k)
    → all_of is_trail ts ≡ true
    → read (ts ++ rest) (owing (owed ts k) v result) ≡ read rest (owing (suc k) (value v ts) result)
unfolding value owed
read_some [] rest v k result fits trails = refl
read_some (t ∷ ts) rest v k result (small, fits) trails =
    let later : (owed ts k == 0) ≡ false = ground (arith, owed-length ts k) in
    read-next t (ts ++ rest) _ _
      (step_trail (owed ts k) v t result small (ground arith) ∙ rw later refl)
    ∙ read_some ts rest (v * 64 + (t - 0x80)) k result (fits (t - 0x80) (ground arith))
        (ground arith)

-- All bytes that trail a symbol.
read_all :
    (t : ℕ) (ts rest : Bytes) (v : ℕ) (result : Option (List ℕ))
    → Fits v (suc (length ts))
    → all_of is_trail (t ∷ ts) ≡ true
    → read (t ∷ (ts ++ rest)) (owing (suc (length ts)) v result)
      ≡ read rest (ready (value v (t ∷ ts)) (push_all result (value v (t ∷ ts) ∷ [])))
unfolding value
read_all t [] rest v result (small, fits) trails =
    read-next t rest _ _ (step_trail 0 v t result small (ground arith))
read_all t (t' ∷ ts) rest v result (small, fits) trails =
    let later : (suc (length ts) == 0) ≡ false = ground arith in
    read-next t (t' ∷ (ts ++ rest)) _ _
      (step_trail (suc (length ts)) v t result small (ground arith) ∙ rw later refl)
    ∙ read_all t' ts rest (v * 64 + (t - 0x80)) result (fits (t - 0x80) (ground arith))
        (ground arith)

abbrev ends_with : ImpErr → Bool → Option (List ℕ) → Answer (Option (List ℕ))
ends_with e accepted result = record { accepted = accepted; errno = e; out = result }

pub read-stop :
    (c : ℕ) (rest : Bytes) (r : Reader) (e : ImpErr)
    → step r c ≡ stop e
    → read (c ∷ rest) r ≡ ends_with e false r.result
unfolding read
read-stop c rest r e h = rw (h, read) refl

pub step_stray :
    (c v : ℕ) (result : Option (List ℕ))
    → c < 256
    → is_stray c ≡ true
    → step (ready v result) c ≡ stop utf8_badhead
unfolding step
step_stray c v result byte stray =
    ground
      (arith, bit_and_field 7 1 c, bit_and_field 5 3 c, bit_and_field 4 4 c, bit_and_field 3 5 c)

pub step_no_trail :
    (n b v : ℕ) (result : Option (List ℕ))
    → b < 256
    → is_trail b ≡ false
    → step (owing (suc n) v result) b ≡ stop utf8_badtrail
unfolding step
step_no_trail n b v result byte other = ground (arith, bit_and_field 6 2 b)

-- A leading byte that others have to trail.
step-Lead :
    {c n q : ℕ} (v : ℕ) (result : Option (List ℕ))
    → Lead c (suc n) q
    → step (ready v result) c ≡ next (owing (suc n) q result)
step-Lead {c} v result (with_one lo hi) =
    let e : 0xC0 + (c - 0xC0) ≡ c = omega arith in
    ap (step (ready v result)) (sym e) ∙ step_header_1 (c - 0xC0) v result (omega arith)
step-Lead {c} v result (with_two lo hi) =
    let e : 0xE0 + (c - 0xE0) ≡ c = omega arith in
    ap (step (ready v result)) (sym e) ∙ step_header_2 (c - 0xE0) v result (omega arith)
step-Lead {c} v result (with_three lo hi) =
    let e : 0xF0 + (c - 0xF0) ≡ c = omega arith in
    ap (step (ready v result)) (sym e) ∙ step_header_3 (c - 0xF0) v result (omega arith)

read_alone :
    {c q : ℕ} (rest : Bytes) (v : ℕ) (result : Option (List ℕ))
    → Lead c 0 q
    → read (c ∷ rest) (ready v result) ≡ read rest (ready q (push_all result (q ∷ [])))
read_alone {c} rest v result (alone h) = read-next c rest _ _ (step_ascii c v result h)

pub read_symbol :
    {c q : ℕ} (ts rest : Bytes) (v : ℕ) (result : Option (List ℕ))
    → Lead c (length ts) q
    → all_of is_trail ts ≡ true
    → read (c ∷ (ts ++ rest)) (ready v result)
      ≡ read rest (ready (value q ts) (push_all result (value q ts ∷ [])))
unfolding value
read_symbol [] rest v result lead trails = read_alone rest v result lead
read_symbol {c = c} {q = q} (t ∷ ts) rest v result lead trails =
    read-next c (t ∷ (ts ++ rest)) _ _ (step-Lead v result lead)
    ∙ read_all t ts rest q result (Lead-Fits lead) trails

-- A symbol with too few bytes behind its first one.
pub read_begun :
    {c n q : ℕ} (ts rest : Bytes) (v : ℕ) (result : Option (List ℕ))
    → Lead c n q
    → all_of is_trail ts ≡ true
    → length ts < n
    → read (c ∷ (ts ++ rest)) (ready v result)
      ≡ read rest (owing (suc (n - suc (length ts))) (value q ts) result)
read_begun {n = zero} ts rest v result lead trails l = absurd (omega arith)
read_begun {c = c} {n = suc n} {q = q} ts rest v result lead trails l =
    let k = suc n - suc (length ts) in
    let owes : suc n ≡ owed ts k = omega (arith, owed-length ts k) in
    read-next c (ts ++ rest) _ _ (step-Lead v result lead)
    ∙ ap (λ m. read (ts ++ rest) (owing m q result)) owes
    ∙ read_some ts rest q k result (subst (Fits q) owes (Lead-Fits lead)) trails
