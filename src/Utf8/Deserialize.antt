-- ===== src/Utf8/Deserialize.antt =====
-- `deserialize` on the text of scalar values, whole or cut short.
use impact_socket_set.Base.{
  ℕ, zero, suc, ◌+◌, ◌*◌, ◌/◌, ◌%◌, ◌^◌, ◌<◌, true, Option, some, none, List, [], ◌∷◌, ◌++◌, Bytes,
  All, all_of, length, take, append_assoc, append-nil, ◌≡◌, refl, sym, ap, ◌∙◌, arith,
}
use impact_socket_set.Errno.{Answer, success}
use impact_socket_set.Utf8.{Reader, push_all, read, serialize_32, deserialize}
use impact_socket_set.Utf8.Table.{is_scalar, utf8_of}
use impact_socket_set.Utf8.Serialize.{text_of, serialize_32-outcome}
use impact_socket_set.Utf8.Steps.{
  step_ascii, step_header_1, step_header_2, step_header_3, read-next, utf8_of-Shape, read_trailer,
  read_last, ready, Shape, one, two, three, four,
}

-- Reading one whole symbol pushes it back.
abbrev ReadsBack : ℕ → Bytes → Type 0
ReadsBack c bytes =
    (rest : Bytes) (symbol : ℕ) (result : Option (List ℕ))
    → read (bytes ++ rest) (ready symbol result) ≡ read rest (ready c (push_all result (c ∷ [])))

Shape-ReadsBack : {c : ℕ} {bytes : Bytes} → Shape c bytes → ReadsBack c bytes
Shape-ReadsBack {c} (one h) rest symbol result = read-next _ rest _ _ (step_ascii c symbol result h)
Shape-ReadsBack {c} (two h) rest symbol result =
    let e : c / 2 ^ 6 * 64 + c / 1 % 64 ≡ c = omega arith in
    read-next _ _ _ _ (step_header_1 (c / 2 ^ 6) symbol result (omega arith))
    ∙ read_last (c / 2 ^ 6) (c / 1 % 64) rest result (omega arith) (omega arith)
    ∙ rw e
Shape-ReadsBack {c} (three h) rest symbol result =
    let e : (c / 2 ^ 12 * 64 + c / 2 ^ 6 % 64) * 64 + c / 1 % 64 ≡ c = omega arith in
    read-next _ _ _ _ (step_header_2 (c / 2 ^ 12) symbol result (omega arith))
    ∙ read_trailer 0 (c / 2 ^ 12) (c / 2 ^ 6 % 64) _ result (omega arith) (omega arith)
    ∙ read_last (c / 2 ^ 12 * 64 + c / 2 ^ 6 % 64) (c / 1 % 64) rest result (omega arith)
        (omega arith)
    ∙ rw e
Shape-ReadsBack {c} (four h) rest symbol result =
    let s = c / 2 ^ 18 * 64 + c / 2 ^ 12 % 64 in
    let e : (s * 64 + c / 2 ^ 6 % 64) * 64 + c / 1 % 64 ≡ c = omega arith in
    read-next _ _ _ _ (step_header_3 (c / 2 ^ 18) symbol result (omega arith))
    ∙ read_trailer 1 (c / 2 ^ 18) (c / 2 ^ 12 % 64) _ result (omega arith) (omega arith)
    ∙ read_trailer 0 s (c / 2 ^ 6 % 64) _ result (omega arith) (omega arith)
    ∙ read_last (s * 64 + c / 2 ^ 6 % 64) (c / 1 % 64) rest result (omega arith) (omega arith)
    ∙ rw e

-- A symbol that is cut short pushes nothing back, and is no error.
abbrev accepted_with : Option (List ℕ) → Answer (Option (List ℕ))
accepted_with result = record { accepted = true; errno = success; out = result }

pub read_end : (r : Reader) → read [] r ≡ accepted_with r.result
unfolding read
read_end r = refl

Shape-cut :
    {c : ℕ} {bytes : Bytes}
    → Shape c bytes
    → (k symbol : ℕ) (result : Option (List ℕ)) → k < length bytes
    → read (take k bytes) (ready symbol result) ≡ accepted_with result
Shape-cut _ zero symbol result k = read_end _
Shape-cut (one h) (suc n) symbol result k = absurd (omega arith)
Shape-cut {c} (two h) (suc zero) symbol result k =
    read-next _ _ _ _ (step_header_1 (c / 2 ^ 6) symbol result (omega arith)) ∙ read_end _
Shape-cut (two h) (suc (suc n)) symbol result k = absurd (omega arith)
Shape-cut {c} (three h) (suc zero) symbol result k =
    read-next _ _ _ _ (step_header_2 (c / 2 ^ 12) symbol result (omega arith)) ∙ read_end _
Shape-cut {c} (three h) (suc (suc zero)) symbol result k =
    read-next _ _ _ _ (step_header_2 (c / 2 ^ 12) symbol result (omega arith))
    ∙ read_trailer 0 (c / 2 ^ 12) (c / 2 ^ 6 % 64) [] result (omega arith) (omega arith)
    ∙ read_end _
Shape-cut (three h) (suc (suc (suc n))) symbol result k = absurd (omega arith)
Shape-cut {c} (four h) (suc zero) symbol result k =
    read-next _ _ _ _ (step_header_3 (c / 2 ^ 18) symbol result (omega arith)) ∙ read_end _
Shape-cut {c} (four h) (suc (suc zero)) symbol result k =
    read-next _ _ _ _ (step_header_3 (c / 2 ^ 18) symbol result (omega arith))
    ∙ read_trailer 1 (c / 2 ^ 18) (c / 2 ^ 12 % 64) [] result (omega arith) (omega arith)
    ∙ read_end _
Shape-cut {c} (four h) (suc (suc (suc zero))) symbol result k =
    read-next _ _ _ _ (step_header_3 (c / 2 ^ 18) symbol result (omega arith))
    ∙ read_trailer 1 (c / 2 ^ 18) (c / 2 ^ 12 % 64) _ result (omega arith) (omega arith)
    ∙ read_trailer 0 (c / 2 ^ 18 * 64 + c / 2 ^ 12 % 64) (c / 2 ^ 6 % 64) [] result (omega arith)
        (omega arith)
    ∙ read_end _
Shape-cut (four h) (suc (suc (suc (suc n)))) symbol result k = absurd (omega arith)

pub push_all-append :
    (result : Option (List ℕ)) (xs ys : List ℕ)
    → push_all (push_all result xs) ys ≡ push_all result (xs ++ ys)
push_all-append none xs ys = refl
push_all-append (some old) xs ys = ap some (append_assoc old xs ys)

pub push_all-nil : (result : Option (List ℕ)) → push_all result [] ≡ result
push_all-nil none = refl
push_all-nil (some old) = ap some (append-nil old)

-- Whole symbols are read one after the other; what follows is read in the last state.
read-text_of :
    (cs : List ℕ) (rest : Bytes) (symbol : ℕ) (result : Option (List ℕ))
    → all_of is_scalar cs ≡ true
    → (symbol' : ℕ) × (read (text_of cs ++ rest) (ready symbol result)
        ≡ read rest (ready symbol' (push_all result cs)))
read-text_of [] rest symbol result h =
    (symbol, ap (λ o. read rest (ready symbol o)) (sym (push_all-nil result)))
read-text_of (c ∷ cs) rest symbol result h =
    let (symbol', e) = read-text_of cs rest c (push_all result (c ∷ [])) (ground arith) in
    (
      symbol',
      ap (λ bytes. read bytes (ready symbol result)) (append_assoc (utf8_of c) (text_of cs) rest)
          ∙ Shape-ReadsBack (utf8_of-Shape c (ground arith)) (text_of cs ++ rest) symbol result
          ∙ e
          ∙ ap (λ o. read rest (ready symbol' o)) (push_all-append result (c ∷ []) cs),
    )

-- The text of scalar values, cut anywhere inside one more symbol, is accepted: the whole
-- symbols are pushed back, and the bytes of the unfinished one are dropped with no error.
deserialize_cut :
    (cs : List ℕ) (c k : ℕ) (result : Option (List ℕ))
    → all_of is_scalar cs ≡ true
    → is_scalar c ≡ true
    → k < length (utf8_of c)
    → deserialize (text_of cs ++ take k (utf8_of c)) result
      ≡ record { accepted = true; errno = success; out = push_all result cs }
unfolding deserialize
deserialize_cut cs c k result h hc hk =
    let (symbol, e) = read-text_of cs (take k (utf8_of c)) 0 result h in
    e ∙ Shape-cut (utf8_of-Shape c (ground arith)) k symbol (push_all result cs) hk

-- Scalar values that are serialized into an empty string and then deserialized come back behind
-- what the output held; both calls accept.
pub deserialize-serialize :
    (cs old' : List ℕ)
    → All (λ c. c < 2 ^ 32) cs
    → all_of is_scalar cs ≡ true
    → (text : Bytes) × (serialize_32 cs (some [])
        ≡ record { accepted = true; errno = success; out = some text })
      × (deserialize text (some old')
          ≡ record { accepted = true; errno = success; out = some (old' ++ cs) })
unfolding deserialize
deserialize-serialize cs old' h32 h = (
  text_of cs,
  serialize_32-outcome cs (some []) h32 ∙ rw h,
  (let (symbol, e) = read-text_of cs [] 0 (some old') h in
      ap (λ bytes. read bytes (ready 0 (some old'))) (sym (append-nil (text_of cs)))
      ∙ e
      ∙ read_end _),
)
