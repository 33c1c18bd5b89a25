-- ===== src/Utf8/Verdict.antt =====
-- `deserialize` on any bytes, beside the description of the texts that it reads.
use impact_socket_set.Base.{
  ℕ, suc, ◌-◌, ◌<◌, Bool, true, false, Option, some, none, List, [], ◌∷◌, Bytes, All, length,
  append-nil, ◌≡◌, sym, ap, subst, ◌∙◌,
}
use impact_socket_set.Errno.{Answer, ImpErr, success, utf8_badhead, utf8_badtrail}
use impact_socket_set.Utf8.{push_all, read, deserialize}
use impact_socket_set.Utf8.Steps.{ready}
use impact_socket_set.Utf8.Deserialize.{read_end, push_all-append, push_all-nil}
use impact_socket_set.Utf8.Groups.{
  Lead, value, Text, end_of_text, symbol, cut_symbol, bad_trail, bad_head, every-IsText,
}
use impact_socket_set.Utf8.Trailing.{read-stop, step_stray, step_no_trail, read_symbol, read_begun}

abbrev pub is_success : ImpErr → Bool
is_success success = true
is_success _ = false

abbrev pub verdict : ImpErr → Option (List ℕ) → Answer (Option (List ℕ))
verdict e out = record { accepted = is_success e; errno = e; out = out }

read-Text :
    {input : Bytes} {cs : List ℕ} {e : ImpErr} (v : ℕ) (result : Option (List ℕ))
    → Text input cs e
    → read input (ready v result) ≡ verdict e (push_all result cs)
read-Text v result end_of_text =
    read_end (ready v result) ∙ ap (verdict success) (sym (push_all-nil result))
read-Text v result (symbol {c = c} {q = q} ts rest {cs = cs} {e = e} lead trails size text) =
    let s = value q ts in
    read_symbol ts rest v result (subst (λ m. Lead c m q) (sym size) lead) trails
    ∙ read-Text s (push_all result (s ∷ [])) text
    ∙ ap (verdict e) (push_all-append result (s ∷ []) cs)
read-Text v result (cut_symbol {c = c} ts lead trails l) =
    ap (λ bytes. read (c ∷ bytes) (ready v result)) (sym (append-nil ts))
    ∙ read_begun ts [] v result lead trails l
    ∙ read_end _
    ∙ ap (verdict success) (sym (push_all-nil result))
read-Text v result (bad_trail {n = n} {q = q} ts b rest lead trails l byte other) =
    read_begun ts (b ∷ rest) v result lead trails l
    ∙ read-stop b rest _ utf8_badtrail
        (step_no_trail (n - suc (length ts)) b (value q ts) result byte other)
    ∙ ap (verdict utf8_badtrail) (sym (push_all-nil result))
read-Text v result (bad_head c rest byte stray) =
    read-stop c rest _ utf8_badhead (step_stray c v result byte stray)
    ∙ ap (verdict utf8_badhead) (sym (push_all-nil result))

abbrev symbols_of : Option (List ℕ) → List ℕ
symbols_of none = []
symbols_of (some symbols) = symbols

-- No bytes have two descriptions.
Text-unique :
    {input : Bytes} {cs cs' : List ℕ} {e e' : ImpErr}
    → Text input cs e
    → Text input cs' e'
    → (cs ≡ cs') × (e ≡ e')
Text-unique text text' =
    let same = sym (read-Text 0 (some []) text) ∙ read-Text 0 (some []) text' in
    (ap (λ a. symbols_of a.out) same, ap (λ a. a.errno) same)

-- Any bytes are a text of symbols up to their end, up to a symbol that the end cuts short, or up to the
-- first byte that does not fit: deserialize pushes back these symbols and no others, returns true in the
-- first two cases, and leaves the error of the third in imp_errno.
pub deserialize-verdict :
    (input : Bytes) (result : Option (List ℕ))
    → All (λ c. c < 256) input
    → (cs : List ℕ) × (e : ImpErr) × Text input cs e
      × (deserialize input result ≡ verdict e (push_all result cs))
unfolding deserialize
deserialize-verdict input result bytes =
    let (cs, e, text) = every-IsText input bytes in (cs, e, text, read-Text 0 result text)
