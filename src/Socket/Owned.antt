-- ===== src/Socket/Owned.antt =====
-- Source/basic_socket.cpp: every open descriptor has one cell, and that cell has an owner.
use impact_socket_set.Base.{
  ℕ, ◌≤◌, ◌<◌, Bool, ltb, ◌==◌, ==_iff, Option, none, some, length, get_or, set_at, ◌≡◌, ◌≢◌, refl,
  sym, ap, ◌∙◌, arith, Bool-cases, inl, inr, ◌⊎◌,
}
use impact_socket_set.Socket.{
  Info, Sockets, points_to, count_owners, void_info, pointer, info, set_pointer, void_cell, close,
}
use impact_socket_set.Socket.Counts.{
  count, count-release, count_owners-set_at, set_at_outside, get_or-set_at, holds_descriptor,
  count_cells, count_cells-set_at, descriptor_inside,
}

pub Option-cases : (p : Option ℕ) → (p ≡ none) ⊎ ((n : ℕ) × (p ≡ some n))
Option-cases none = inl refl
Option-cases (some n) = inr (n, refl)

pub none-some : (n : ℕ) → none ≢ some n
none-some n e = cc

module _ {ℓ} {Kind : Type ℓ} (unset : Kind) where
  -- A cell with a descriptor has an owner, and each open descriptor is that of one cell.
  pub record IsOwned (s : Sockets Kind) : Type 0 where
    pub owned :
        (cell d : ℕ) → (info unset cell s).descriptor ≡ some d → 0 < count_owners cell s.objects
    pub matched : (d : ℕ) → count d s.open_descriptors ≡ count_cells d s.cells
    pub single : (d : ℕ) → count d s.open_descriptors ≤ 1

  -- Writing the pointer of an object takes no cell with a descriptor from its last owner.
  abbrev pub IsSafe : ℕ → Sockets Kind → Type 0
  IsSafe object s =
      (cell d : ℕ)
      → pointer unset object s ≡ some cell
      → (info unset cell s).descriptor ≡ some d
      → 1 < count_owners cell s.objects

  pub write-IsOwned :
      (object : ℕ) (q : Option ℕ) (s : Sockets Kind)
      → IsOwned s
      → IsSafe object s
      → IsOwned (set_pointer unset object q s)
  write-IsOwned object q s h safe = record {
    owned = λ c d has. elim (Bool-cases (ltb object (length s.objects))) [
      | inl e ↦
          let sum = count_owners-set_at c object q s.objects (ground (arith, e)) in
          elim (Option-cases (pointer unset object s)) [
            | inl p ↦ omega (arith, sum, ap (points_to c) p, h.owned c d has)
            | inr (cell, p) ↦ elim (Bool-cases (cell == c)) [
              | inl same ↦
                  let here : cell ≡ c = (==_iff cell c).0 same in
                  let two = safe c d (p ∙ ap some here) has in
                  ground (arith, sum, ap (points_to c) p, two)
              | inr other ↦ ground (arith, sum, ap (points_to c) p, other, h.owned c d has)
            ]
          ]
      | inr e ↦
          let same : set_at object q s.objects ≡ s.objects =
            set_at_outside object q s.objects (ground (arith, e)) in
          rw same (h.owned c d has)
    ];
    matched = h.matched;
    single = h.single;
  }

  void_cell-keeps :
      (s : Sockets Kind) (c x cell : ℕ)
      → cell < length s.cells
      → (get_or (void_cell unset cell s) c (void_info unset)).descriptor ≡ some x
      → (info unset c s).descriptor ≡ some x
  void_cell-keeps s c x cell inside has =
      let now =
        get_or-set_at cell c (record (info unset cell s) { descriptor = none }) (void_info unset)
          s.cells inside in
      elim (Bool-cases (cell == c)) [
        | inl e ↦
            let void : (get_or (void_cell unset cell s) c (void_info unset)).descriptor ≡ none =
              ap (λ i. i.descriptor) now ∙ rw e refl in
            absurd (none-some x (sym void ∙ has))
        | inr e ↦
            let same : get_or (void_cell unset cell s) c (void_info unset) ≡ info unset c s =
              now ∙ rw e refl in
            ap (λ i. i.descriptor) (sym same) ∙ has
      ]

  -- Closing lets the descriptor go in the cell and in the system.
  pub close-IsOwned :
      (object : ℕ) (ok : Bool) (s : Sockets Kind) → IsOwned s → IsOwned (close unset object ok s).1
  unfolding close count
  close-IsOwned object ok s h = elim (Option-cases (pointer unset object s)) [
    | inl e ↦ rw (e, close) h
    | inr (cell, e) ↦ elim (Option-cases (info unset cell s).descriptor) [
      | inl e2 ↦ rw (e, e2, close) h
      | inr (d, e2) ↦
          let inside = descriptor_inside cell d (void_info unset) s.cells refl e2 in
          let empty : Info Kind = record (info unset cell s) { descriptor = none } in
          let was = λ (x : ℕ). ap (holds_descriptor x) e2 in
          let cells = λ (x : ℕ). count_cells-set_at x cell empty (void_info unset) s.cells inside in
          let gone = λ (x : ℕ). count-release x d s.open_descriptors in
          rw (e, e2, close)
            (record {
              owned = λ c x has. h.owned c x (void_cell-keeps s c x cell inside has);
              matched = λ x. ground (arith, was x, cells x, gone x, h.matched x);
              single = λ x. omega (arith, gone x, h.single x);
            })
    ]
  ]
