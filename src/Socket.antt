-- ===== src/Socket.antt =====
-- Source/basic_socket.cpp and Include/sockets/basic_socket.h: who owns a descriptor.
-- Sockets share their information through a shared_ptr, so the store is explicit: the cells that
-- make_shared has made, the pointer of each object (none is nullptr, and also what a destroyed
-- object leaves), and the descriptors that the system has open for the library.
-- The answers of the system are arguments: the descriptor that ::socket gives, and whether ::close
-- reports success (it lets go of the descriptor in any case). The address family, type and protocol
-- are one `Kind`, a parameter, and so is the one that says nothing.
pub mod Counts
pub mod Owned
pub mod Calls
pub mod Runs
mod Tests
use impact_socket_set.Base.{
  ℕ, zero, suc, ◌+◌, ◌<◌, Bool, true, false, not, ◌==◌, if◌then◌else◌, Option, none, some, List, [],
  ◌∷◌, ◌++◌, length, get_or, set_at, ◌≡◌,
}
use impact_socket_set.Base.Int.{ℤ, pos, negsuc}

-- basic_socket_info; the descriptor INVALID_SOCKET is none
pub record Info {ℓ} (Kind : Type ℓ) : Type ℓ where
  pub descriptor : Option ℕ
  pub kind : Kind

pub record Sockets {ℓ} (Kind : Type ℓ) : Type ℓ where
  pub cells : List (Info Kind)
  pub objects : List (Option ℕ)
  pub open_descriptors : List ℕ

-- Whether a call throws, and what it leaves.
abbrev pub Result {ℓ} : Type ℓ → Type ℓ
Result Kind = Bool × Sockets Kind

abbrev pub points_to : ℕ → Option ℕ → ℕ
points_to cell none = 0
points_to cell (some other) = if other == cell then 1 else 0

-- m_info_.use_count()
abbrev pub count_owners : ℕ → List (Option ℕ) → ℕ
count_owners cell [] = 0
count_owners cell (pointer ∷ rest) = points_to cell pointer + count_owners cell rest

-- The system lets go of a descriptor.
abbrev pub release : ℕ → List ℕ → List ℕ
release descriptor [] = []
release descriptor (other ∷ rest) =
    if other == descriptor then rest else other ∷ release descriptor rest

module _ {ℓ} {Kind : Type ℓ} (unset : Kind) where
  abbrev pub void_info : Info Kind
  void_info = record { descriptor = none; kind = unset }

  abbrev pub pointer : ℕ → Sockets Kind → Option ℕ
  pointer object s = get_or s.objects object none

  abbrev pub info : ℕ → Sockets Kind → Info Kind
  info cell s = get_or s.cells cell void_info

  abbrev pub set_pointer : ℕ → Option ℕ → Sockets Kind → Sockets Kind
  set_pointer object p s = record s { objects = set_at object p s.objects }

  -- basic_socket::get
  unfoldable pub get : ℕ → Sockets Kind → ℤ
  get object s = elim (pointer object s) [
    | none ↦ negsuc 0
    | some cell ↦ elim ((info cell s).descriptor) [ none ↦ negsuc 0 | some d ↦ pos d ]
  ]

  -- basic_socket::domain, type and protocol
  unfoldable pub kind_of : ℕ → Sockets Kind → Kind
  kind_of object s = elim (pointer object s) [ none ↦ unset | some cell ↦ (info cell s).kind ]

  -- basic_socket::operator bool
  unfoldable pub is_valid : ℕ → Sockets Kind → Bool
  is_valid object s = elim (pointer object s) [
    | none ↦ false
    | some cell ↦ elim ((info cell s).descriptor) [ none ↦ false | some _ ↦ true ]
  ]

  -- basic_socket::use_count
  unfoldable pub use_count : ℕ → Sockets Kind → ℕ
  use_count object s = elim (pointer object s) [
    | none ↦ 0
    | some cell ↦ count_owners cell s.objects
  ]

  abbrev pub void_cell : ℕ → Sockets Kind → List (Info Kind)
  void_cell cell s = set_at cell (record (info cell s) { descriptor = none }) s.cells

  -- basic_socket::close; without a descriptor ::close(-1) fails.
  unfoldable pub close : ℕ → Bool → Sockets Kind → Result Kind
  close object closes s = elim (pointer object s) [
    | none ↦ (true, s)
    | some cell ↦ elim ((info cell s).descriptor) [
      | none ↦ (true, s)
      | some d ↦ (
        not closes,
        record s { cells = void_cell cell s; open_descriptors = release d s.open_descriptors },
      )
    ]
  ]

  -- The last owner closes the descriptor, and gives up its pointer unless that throws.
  abbrev pub give_up : ℕ → Bool → Option ℕ → Sockets Kind → Result Kind
  give_up object closes none s = (false, set_pointer object none s)
  give_up object closes (some _) s =
      let (threw, closed) = close object closes s in
      if threw then (true, closed) else (false, set_pointer object none closed)

  unfoldable pub dtor : ℕ → Bool → Sockets Kind → Result Kind
  dtor object closes s = elim (pointer object s) [
    | none ↦ (false, s)
    | some cell ↦
        if count_owners cell s.objects == 1
        then give_up object closes (info cell s).descriptor s
        else (false, s)
  ]

  -- _M_copy to an object from another
  unfoldable pub copy : ℕ → ℕ → Sockets Kind → Result Kind
  copy object from s = elim (pointer from s) [
    | none ↦ (true, s)
    | some cell ↦ (false, set_pointer object (some cell) s)
  ]

  -- _M_move to an object from another
  unfoldable pub move : ℕ → ℕ → Sockets Kind → Result Kind
  move object from s = elim (pointer from s) [
    | none ↦ (true, s)
    | some cell ↦ (false, set_pointer from none (set_pointer object (some cell) s))
  ]

  -- The constructors make the next object, which holds nothing if they throw.
  abbrev pub with_object : Sockets Kind → Sockets Kind
  with_object s = record s { objects = s.objects ++ (none ∷ []) }

  unfoldable pub construct : Sockets Kind → Sockets Kind
  construct s = record s {
    cells = s.cells ++ (void_info ∷ []);
    objects = s.objects ++ (some (length s.cells) ∷ []);
  }

  -- make_socket: on failure of ::socket the local object is destroyed.
  unfoldable pub make_socket : Kind → Option ℕ → Sockets Kind → Result Kind
  make_socket kind none s =
      (true, record s { cells = s.cells ++ (void_info ∷ []); objects = s.objects ++ (none ∷ []) })
  make_socket kind (some d) s = (
    false,
    record s {
      cells = s.cells ++ (record { descriptor = some d; kind = kind } ∷ []);
      objects = s.objects ++ (some (length s.cells) ∷ []);
      open_descriptors = d ∷ s.open_descriptors;
    },
  )

  -- basic_socket::accept: a socket of the same kind, for the descriptor that ::accept gives.
  unfoldable pub accept : ℕ → Option ℕ → Sockets Kind → Result Kind
  accept object answer s = elim (pointer object s) [
    | none ↦ (true, s)
    | some cell ↦ make_socket (info cell s).kind answer s
  ]

  -- basic_socket::~basic_socket, and the end of the pointer
  unfoldable pub destroy : ℕ → Bool → Sockets Kind → Sockets Kind
  destroy object closes s = set_pointer object none (dtor object closes s).1

  -- The two assignments: what the object holds is let go first.
  abbrev pub assign_by :
      (ℕ → ℕ → Sockets Kind → Result Kind) → ℕ → ℕ → Bool → Sockets Kind → Result Kind
  assign_by take object from closes s = elim (pointer object s) [
    | none ↦ take object from s
    | some _ ↦
        let (threw, left) = dtor object closes s in
        if threw then (true, left) else take object from left
  ]

  unfoldable pub copy_assign : ℕ → ℕ → Bool → Sockets Kind → Result Kind
  copy_assign = assign_by copy

  unfoldable pub move_assign : ℕ → ℕ → Bool → Sockets Kind → Result Kind
  move_assign = assign_by move

-- The calls of a client, with the answers of the system.
pub data Call {ℓ} (Kind : Type ℓ) : Type ℓ where
  constructs : Call Kind
  makes : Kind → Option ℕ → Call Kind
  accepts : ℕ → Option ℕ → Call Kind
  copies : ℕ → Call Kind
  moves : ℕ → Call Kind
  assigns : ℕ → ℕ → Bool → Call Kind
  move_assigns : ℕ → ℕ → Bool → Call Kind
  closes : ℕ → Bool → Call Kind
  destroys : ℕ → Bool → Call Kind

module _ {ℓ} {Kind : Type ℓ} (unset : Kind) where
  unfoldable pub call : Call Kind → Sockets Kind → Sockets Kind
  call constructs s = construct unset s
  call (makes kind answer) s = (make_socket unset kind answer s).1
  call (accepts object answer) s = (accept unset object answer s).1
  call (copies from) s = (copy unset (length s.objects) from (with_object unset s)).1
  call (moves from) s = (move unset (length s.objects) from (with_object unset s)).1
  call (assigns object from ok) s = (copy_assign unset object from ok s).1
  call (move_assigns object from ok) s = (move_assign unset object from ok s).1
  call (closes object ok) s = (close unset object ok s).1
  call (destroys object ok) s = destroy unset object ok s

  unfoldable pub run : List (Call Kind) → Sockets Kind → Sockets Kind
  run [] s = s
  run (c ∷ cs) s = run cs (call c s)

abbrev pub no_sockets {ℓ} : {Kind : Type ℓ} → Sockets Kind
no_sockets = record { cells = []; objects = []; open_descriptors = [] }
