-- ===== src/Socket/Calls.antt =====
-- Source/basic_socket.cpp: each call of a client keeps the descriptors owned.
use impact_socket_set.Base.{
  ℕ, ◌<◌, Bool, ◌==◌, ==_iff, ==_refl, length-set_at, none, some, length, get_or, ◌≡◌, refl, sym,
  ap, ◌∙◌, arith, Bool-cases, inl, inr,
}
use impact_socket_set.Socket.{
  Sockets, Result, points_to, count_owners, void_info, pointer, info, set_pointer, close, give_up,
  dtor, copy, move, assign_by,
}
use impact_socket_set.Socket.Counts.{
  count_owners-set_at, get_or-set_at, pointer_inside, descriptor_inside,
}
use impact_socket_set.Socket.Owned.{
  IsOwned, IsSafe, write-IsOwned, close-IsOwned, Option-cases, none-some,
}

module _ {ℓ} {Kind : Type ℓ} (unset : Kind) where
  -- After `close` the cell of the object has no descriptor, and no pointer has changed.
  close-empties :
      (object cell : ℕ) (ok : Bool) (s : Sockets Kind)
      → pointer unset object s ≡ some cell
      → (let t = (close unset object ok s).1 in
          ((info unset cell t).descriptor ≡ none) × (t.objects ≡ s.objects))
  unfolding close
  close-empties object cell ok s e = elim (Option-cases (info unset cell s).descriptor) [
    | inl e2 ↦ rw (e, e2, close) (e2, refl)
    | inr (d, e2) ↦
        let inside = descriptor_inside cell d (void_info unset) s.cells refl e2 in
        let now =
          get_or-set_at cell cell (record (info unset cell s) { descriptor = none })
            (void_info unset) s.cells inside in
        rw (e, e2, close) (ap (λ i. i.descriptor) now ∙ rw (==_refl cell) refl, refl)
  ]

  -- A pointer can be written when it is null, and when its cell has no descriptor.
  pub null-IsSafe :
      (object : ℕ) (s : Sockets Kind) → pointer unset object s ≡ none → IsSafe unset object s
  null-IsSafe object s null cell d e has = absurd (none-some cell (sym null ∙ e))

  empty-IsSafe :
      (object cell : ℕ) (s : Sockets Kind)
      → pointer unset object s ≡ some cell
      → (info unset cell s).descriptor ≡ none
      → IsSafe unset object s
  empty-IsSafe object cell s e empty other d e2 has =
      let same : cell ≡ other = cc in absurd (none-some d (sym empty ∙ rw same has))

  pub written_null :
      (object : ℕ) (s : Sockets Kind)
      → object < length s.objects
      → pointer unset object (set_pointer unset object none s) ≡ none
  written_null object s inside =
      get_or-set_at object object none none s.objects inside ∙ rw (==_refl object) refl

  -- What `dtor` leaves: owned descriptors, a pointer that can be written, and the same objects.
  pub record Left (object : ℕ) (s t : Sockets Kind) : Type 0 where
    pub owned : IsOwned unset t
    pub safe : IsSafe unset object t
    pub size : length t.objects ≡ length s.objects

  lose-Left :
      (object cell : ℕ) (s t : Sockets Kind)
      → pointer unset object t ≡ some cell
      → (info unset cell t).descriptor ≡ none
      → t.objects ≡ s.objects
      → IsOwned unset t
      → Left object s (set_pointer unset object none t)
  lose-Left object cell s t e empty same h = record {
    owned = write-IsOwned unset object none t h (empty-IsSafe object cell t e empty);
    safe =
        null-IsSafe object (set_pointer unset object none t)
          (written_null object t (pointer_inside object cell t.objects e));
    size = length-set_at object none t.objects ∙ ap length same;
  }

  give_up-Left :
      (object cell : ℕ) (ok : Bool) (s : Sockets Kind)
      → pointer unset object s ≡ some cell
      → IsOwned unset s
      → Left object s (give_up unset object ok (info unset cell s).descriptor s).1
  give_up-Left object cell ok s e h = elim (Option-cases (info unset cell s).descriptor) [
    | inl e2 ↦ rw e2 (lose-Left object cell s s e e2 refl h)
    | inr (d, e2) ↦
        let t : Sockets Kind = (close unset object ok s).1 in
        let (empty, same) = close-empties object cell ok s e in
        let closed = close-IsOwned unset object ok s h in
        let e3 : pointer unset object t ≡ some cell = ap (λ os. get_or os object none) same ∙ e in
        elim (Bool-cases ((close unset object ok s).0)) [
          | inl threw ↦
              rw (e2, threw)
                (record {
                  owned = closed;
                  safe = empty-IsSafe object cell t e3 empty;
                  size = ap length same;
                })
          | inr done ↦ rw (e2, done) (lose-Left object cell s t e3 empty same closed)
        ]
  ]

  pub dtor-Left :
      (object : ℕ) (ok : Bool) (s : Sockets Kind)
      → IsOwned unset s
      → Left object s (dtor unset object ok s).1
  unfolding dtor
  dtor-Left object ok s h = elim (Option-cases (pointer unset object s)) [
    | inl e ↦ rw (e, dtor) (record { owned = h; safe = null-IsSafe object s e; size = refl })
    | inr (cell, e) ↦ elim (Bool-cases (count_owners cell s.objects == 1)) [
      | inl one ↦ rw (e, one, dtor) (give_up-Left object cell ok s e h)
      | inr more ↦
          rw (e, more, dtor)
            (record {
              owned = h;
              safe = λ other d e2 has.
                  let same : cell ≡ other = cc in ground (arith, more, h.owned other d has, same);
              size = refl;
            })
    ]
  ]

  pub copy-IsOwned :
      (object from : ℕ) (s : Sockets Kind)
      → IsOwned unset s
      → IsSafe unset object s
      → IsOwned unset (copy unset object from s).1
  unfolding copy
  copy-IsOwned object from s h safe = elim (Option-cases (pointer unset from s)) [
    | inl e ↦ rw (e, copy) h
    | inr (cell, e) ↦ rw (e, copy) (write-IsOwned unset object (some cell) s h safe)
  ]

  moved-IsSafe :
      (object from cell : ℕ) (s : Sockets Kind)
      → object < length s.objects
      → IsOwned unset s
      → IsSafe unset object s
      → pointer unset from s ≡ some cell
      → IsSafe unset from (set_pointer unset object (some cell) s)
  moved-IsSafe object from cell s inside h safe e c d e2 has =
      let now : pointer unset from (set_pointer unset object (some cell) s) ≡ some cell =
        get_or-set_at object from (some cell) none s.objects inside
        ∙ elim (Bool-cases (object == from)) [ inl b ↦ rw b refl | inr b ↦ rw b e ] in
      let ends : some cell ≡ some c = sym now ∙ e2 in
      let same : cell ≡ c = cc in
      let sum = count_owners-set_at c object (some cell) s.objects inside in
      elim (Option-cases (pointer unset object s)) [
        | inl p ↦ ground (arith, sum, ap (points_to c) p, same, h.owned c d has)
        | inr (o, p) ↦ elim (Bool-cases (o == c)) [
          | inl b ↦
              let here : o ≡ c = (==_iff o c).0 b in
              ground (arith, sum, ap (points_to c) p, same, safe c d (p ∙ ap some here) has)
          | inr b ↦ ground (arith, sum, ap (points_to c) p, same, b, h.owned c d has)
        ]
      ]

  pub move-IsOwned :
      (object from : ℕ) (s : Sockets Kind)
      → object < length s.objects
      → IsOwned unset s
      → IsSafe unset object s
      → IsOwned unset (move unset object from s).1
  unfolding move
  move-IsOwned object from s inside h safe = elim (Option-cases (pointer unset from s)) [
    | inl e ↦ rw (e, move) h
    | inr (cell, e) ↦
        let t : Sockets Kind = set_pointer unset object (some cell) s in
        let written = write-IsOwned unset object (some cell) s h safe in
        rw (e, move)
          (write-IsOwned unset from none t written
            (moved-IsSafe object from cell s inside h safe e))
  ]

  pub assign_by-IsOwned :
      (take : ℕ → ℕ → Sockets Kind → Result Kind) (object from : ℕ) (ok : Bool) (s : Sockets Kind)
      → ((t : Sockets Kind)
          → length t.objects ≡ length s.objects
          → IsOwned unset t
          → IsSafe unset object t
          → IsOwned unset (take object from t).1)
      → IsOwned unset s
      → IsOwned unset (assign_by unset take object from ok s).1
  assign_by-IsOwned take object from ok s keeps h = elim (Option-cases (pointer unset object s)) [
    | inl e ↦ rw (e, assign_by) (keeps s refl h (null-IsSafe object s e))
    | inr (cell, e) ↦
        let left = dtor-Left object ok s h in
        elim (Bool-cases ((dtor unset object ok s).0)) [
          | inl threw ↦ rw (e, threw, assign_by) left.owned
          | inr done ↦
              rw (e, done, assign_by)
                (keeps (dtor unset object ok s).1 left.size left.owned left.safe)
        ]
  ]
