-- ===== src/Socket/Runs.antt =====
-- Source/basic_socket.cpp: no sequence of calls loses a descriptor.
use impact_socket_set.Base.{
  ℕ, ◌+◌, ◌≤◌, ◌<◌, true, false, ◌==◌, ==_iff, Option, none, some, List, [], ◌∷◌, ◌++◌, length,
  length-append, get_or, get_or-middle, set_at, ◌≡◌, refl, sym, ap, ◌∙◌, subst, arith, Bool-cases,
  inl, inr,
}
use impact_socket_set.Socket.{
  Info, Sockets, points_to, count_owners, release, void_info, pointer, info, void_cell, close, dtor,
  copy, move, with_object, construct, make_socket, accept, destroy, assign_by, copy_assign,
  move_assign,
}
use impact_socket_set.Socket.Counts.{
  count, count_owners-append, holds_descriptor, count_cells-append, get_or-append, pointer_inside,
}
use impact_socket_set.Socket.Owned.{IsOwned, write-IsOwned, close-IsOwned, Option-cases, none-some}
use impact_socket_set.Socket.{
  Call, constructs, makes, accepts, copies, moves, assigns, move_assigns, closes, destroys, call,
  run, no_sockets,
}
use impact_socket_set.Socket.Calls.{
  written_null, copy-IsOwned, move-IsOwned, null-IsSafe, assign_by-IsOwned, dtor-Left,
}
use impact_socket_set.Socket.Counts.{count_all_zero, count_cells_zero}

module _ {ℓ} {Kind : Type ℓ} (unset : Kind) where
  -- What a call relies on: `::socket` or `::accept` gives a descriptor that is not open, and an object that is
  -- assigned to is one of the objects.
  abbrev pub IsPossible : Call Kind → Sockets Kind → Type 0
  IsPossible (makes kind (some d)) s = count d s.open_descriptors ≡ 0
  IsPossible (accepts object (some d)) s = count d s.open_descriptors ≡ 0
  IsPossible (move_assigns object from ok) s = object < length s.objects
  IsPossible _ s = Unit

  unfoldable pub ArePossible : List (Call Kind) → Sockets Kind → Type 0
  ArePossible [] s = Unit
  ArePossible (c ∷ cs) s = IsPossible c s × ArePossible cs (call unset c s)

  -- A new object with its pointer, and a new cell.
  grow-IsOwned :
      (c : Info Kind) (p : Option ℕ) (opened : List ℕ) (s : Sockets Kind)
      → IsOwned unset s
      → ((d : ℕ) → c.descriptor ≡ some d → 0 < points_to (length s.cells) p)
      → ((d : ℕ) → count d opened ≡ count d s.open_descriptors + holds_descriptor d c.descriptor)
      → ((d : ℕ) → count d opened ≤ 1)
      → IsOwned unset (record {
        cells = s.cells ++ (c ∷ []);
        objects = s.objects ++ (p ∷ []);
        open_descriptors = opened;
      })
  grow-IsOwned c p opened s h points counted single = record {
    owned = λ cell d has.
        let sum = count_owners-append cell s.objects (p ∷ []) in
        let here = get_or-append s.cells cell c (void_info unset) in
        elim (Bool-cases (cell == length s.cells)) [
          | inl e ↦
              let at : cell ≡ length s.cells = (==_iff cell (length s.cells)).0 e in
              let now : get_or (s.cells ++ (c ∷ [])) cell (void_info unset) ≡ c =
                here ∙ rw e refl in
              let mine : c.descriptor ≡ some d = sym (ap (λ i. i.descriptor) now) ∙ has in
              let one : 0 < points_to cell p = rw at (points d mine) in omega (arith, sum, one)
          | inr e ↦
              let now : get_or (s.cells ++ (c ∷ [])) cell (void_info unset) ≡ info unset cell s =
                here ∙ rw e refl in
              let old : (info unset cell s).descriptor ≡ some d =
                sym (ap (λ i. i.descriptor) now) ∙ has in
              omega (arith, sum, h.owned cell d old)
        ];
    matched = λ d. omega (arith, counted d, h.matched d, count_cells-append d s.cells (c ∷ []));
    single = single;
  }

  with_object-IsOwned : (s : Sockets Kind) → IsOwned unset s → IsOwned unset (with_object unset s)
  with_object-IsOwned s h = record {
    owned = λ cell d has.
        omega (arith, count_owners-append cell s.objects (none ∷ []), h.owned cell d has);
    matched = h.matched;
    single = h.single;
  }

  -- The descriptor that the system gives is not open.
  abbrev pub IsFresh : Option ℕ → Sockets Kind → Type 0
  IsFresh answer s = (d : ℕ) → answer ≡ some d → count d s.open_descriptors ≡ 0

  only : (x : ℕ) (s : Sockets Kind) → count x s.open_descriptors ≡ 0 → IsFresh (some x) s
  only x s e d same = let here : x ≡ d = cc in subst (λ y. count y s.open_descriptors ≡ 0) here e

  make_socket-IsOwned :
      (kind : Kind) (answer : Option ℕ) (s : Sockets Kind)
      → IsFresh answer s
      → IsOwned unset s
      → IsOwned unset (make_socket unset kind answer s).1
  unfolding make_socket count
  make_socket-IsOwned kind none s fresh h =
      grow-IsOwned (void_info unset) none s.open_descriptors s h (λ d e. absurd (none-some d e))
        (λ d. omega arith) h.single
  make_socket-IsOwned kind (some x) s fresh h =
      grow-IsOwned (record { descriptor = some x; kind = kind }) (some (length s.cells))
        (x ∷ s.open_descriptors) s h (λ d e. ground arith) (λ d. ground arith)
        (λ d. elim (Bool-cases (x == d)) [
          | inl e ↦
              let zero_times : count d s.open_descriptors ≡ 0 =
                subst (λ y. count y s.open_descriptors ≡ 0) ((==_iff x d).0 e) (fresh x refl) in
              ground (arith, zero_times, e)
          | inr e ↦ ground (arith, h.single d, e)
        ])

  accept-IsOwned :
      (object : ℕ) (answer : Option ℕ) (s : Sockets Kind)
      → IsFresh answer s
      → IsOwned unset s
      → IsOwned unset (accept unset object answer s).1
  unfolding accept
  accept-IsOwned object answer s fresh h = elim (Option-cases (pointer unset object s)) [
    | inl e ↦ rw (e, accept) h
    | inr (cell, e) ↦ rw (e, accept) (make_socket-IsOwned (info unset cell s).kind answer s fresh h)
  ]

  -- Every possible call keeps the descriptors owned.
  call-IsOwned :
      (c : Call Kind) (s : Sockets Kind)
      → IsPossible c s
      → IsOwned unset s
      → IsOwned unset (call unset c s)
  unfolding call construct make_socket destroy copy_assign move_assign count
  call-IsOwned constructs s possible h =
      grow-IsOwned (void_info unset) (some (length s.cells)) s.open_descriptors s h
        (λ d e. absurd (none-some d e)) (λ d. omega arith) h.single
  call-IsOwned (makes kind none) s possible h =
      make_socket-IsOwned kind none s (λ d e. absurd (none-some d e)) h
  call-IsOwned (makes kind (some x)) s possible h =
      make_socket-IsOwned kind (some x) s (only x s possible) h
  call-IsOwned (accepts object none) s possible h =
      accept-IsOwned object none s (λ d e. absurd (none-some d e)) h
  call-IsOwned (accepts object (some x)) s possible h =
      accept-IsOwned object (some x) s (only x s possible) h
  call-IsOwned (copies from) s possible h =
      copy-IsOwned unset (length s.objects) from (with_object unset s) (with_object-IsOwned s h) (
        null-IsSafe unset (length s.objects) (with_object unset s)
          (get_or-middle s.objects [] none none))
  call-IsOwned (moves from) s possible h =
      move-IsOwned unset (length s.objects) from (with_object unset s)
        (omega (arith, length-append s.objects (none ∷ []))) (with_object-IsOwned s h)
        (null-IsSafe unset (length s.objects) (with_object unset s)
          (get_or-middle s.objects [] none none))
  call-IsOwned (assigns object from ok) s possible h =
      assign_by-IsOwned unset (copy unset) object from ok s
        (λ t size held safe. copy-IsOwned unset object from t held safe) h
  call-IsOwned (move_assigns object from ok) s possible h =
      assign_by-IsOwned unset (move unset) object from ok s
        (λ t size held safe.
          move-IsOwned unset object from t (omega (arith, size, possible)) held safe)
        h
  call-IsOwned (closes object ok) s possible h = close-IsOwned unset object ok s h
  call-IsOwned (destroys object ok) s possible h =
      let left = dtor-Left unset object ok s h in
      write-IsOwned unset object none (dtor unset object ok s).1 left.owned left.safe

  run-keeps :
      (cs : List (Call Kind)) (s : Sockets Kind)
      → ArePossible cs s
      → IsOwned unset s
      → IsOwned unset (run unset cs s)
  unfolding run ArePossible
  run-keeps [] s possible h = h
  run-keeps (c ∷ cs) s possible h =
      run-keeps cs (call unset c s) possible.1 (call-IsOwned c s possible.0 h)

  -- After any sequence of calls from the beginning, whatever the system answers, each descriptor
  -- that is open is the descriptor of exactly one piece of socket information and is open once, a
  -- descriptor that a piece of information has is open, and the piece has an object that points to
  -- it.
  pub run-IsOwned :
      (cs : List (Call Kind)) → ArePossible cs no_sockets → IsOwned unset (run unset cs no_sockets)
  unfolding count
  run-IsOwned cs possible = run-keeps cs no_sockets possible (record {
    owned = λ cell d has. absurd (none-some d has);
    matched = λ d. refl;
    single = λ d. omega arith;
  })

  -- So when, after any sequence of calls, no object points to anything any more, since each was
  -- destroyed or moved from, every descriptor that the library opened has been closed.
  pub run-no_leak :
      (cs : List (Call Kind))
      → ArePossible cs no_sockets
      → ((cell : ℕ) → count_owners cell (run unset cs no_sockets).objects ≡ 0)
      → (run unset cs no_sockets).open_descriptors ≡ []
  run-no_leak cs possible unowned =
      let s : Sockets Kind = run unset cs no_sockets in
      let h = run-IsOwned cs possible in
      count_all_zero s.open_descriptors (λ d.
        h.matched d
        ∙ count_cells_zero d (void_info unset) s.cells
            (λ cell has. absurd (omega (arith, h.owned cell d has, unowned cell))))

  dtor-last :
      (object cell d : ℕ) (s : Sockets Kind)
      → pointer unset object s ≡ some cell
      → (info unset cell s).descriptor ≡ some d
      → count_owners cell s.objects ≡ 1
      → dtor unset object true s ≡ (
        false,
        record s {
          cells = void_cell unset cell s;
          objects = set_at object none s.objects;
          open_descriptors = release d s.open_descriptors;
        },
      )
  unfolding dtor close
  dtor-last object cell d s e e2 one =
      let test : (count_owners cell s.objects == 1) ≡ true = ground (arith, one) in
      rw (e, test, e2, dtor) (rw (e, e2, close) refl)

  -- Assigning a socket to itself, by copy or by move, when it is the only owner of an open
  -- descriptor that closes without an error: the call throws, the descriptor is closed, and the
  -- object is left with a null pointer.
  assign_self :
      (object cell d : ℕ) (s : Sockets Kind)
      → pointer unset object s ≡ some cell
      → (info unset cell s).descriptor ≡ some d
      → count_owners cell s.objects ≡ 1
      → (copy_assign unset object object true s ≡ move_assign unset object object true s)
        × ((copy_assign unset object object true s).0 ≡ true)
        × (pointer unset object (copy_assign unset object object true s).1 ≡ none)
        × ((copy_assign unset object object true s).1.open_descriptors
            ≡ release d s.open_descriptors)
  unfolding copy_assign move_assign copy move
  assign_self object cell d s e e2 one =
      let t : Sockets Kind = record s {
        cells = void_cell unset cell s;
        objects = set_at object none s.objects;
        open_descriptors = release d s.open_descriptors;
      } in
      let null : pointer unset object t ≡ none =
        written_null unset object s (pointer_inside object cell s.objects e) in
      let copied : copy_assign unset object object true s ≡ (true, t) =
        rw (e, dtor-last object cell d s e e2 one, assign_by) (rw (null, copy) refl) in
      let moved : move_assign unset object object true s ≡ (true, t) =
        rw (e, dtor-last object cell d s e e2 one, assign_by) (rw (null, move) refl) in
      (
        copied ∙ sym moved,
        ap (λ r. r.0) copied,
        ap (λ r. pointer unset object r.1) copied ∙ null,
        ap (λ r. r.1.open_descriptors) copied,
      )
