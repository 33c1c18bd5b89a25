-- ===== src/Probe/Select.antt =====
-- `select` of Source/probe.cpp. A socket is its descriptor, -1 where it has none. ::select and
-- FD_SETSIZE are parameters; a descriptor that FD_SET has no bit for is undefined behaviour, `none`.
pub mod Asked
use impact_socket_set.Base.{
  ℕ, suc, ◌+◌, ◌-◌, ◌%◌, ◌^◌, ◌<◌, ◌≤◌, Bool, true, false, ◌||◌, ltb, ◌==◌, ==_iff, if◌then◌else◌,
  Bool-cases, Option, none, some, List, [], ◌∷◌, All, all_of, ◌≡◌, ◌⊎◌, refl, sym, ap, ◌∙◌, inl,
  inr, arith,
}
use impact_socket_set.Base.Int.{ℤ, pos, negsuc}

-- An fd_set, with FD_ZERO and FD_SET
abbrev pub FdSet : Type 0
FdSet = ℕ → Bool

abbrev pub fd_zero : FdSet
fd_zero d = false

abbrev pub fd_set : ℕ → FdSet → FdSet
fd_set d set k = k == d || set k

-- The conversion to `unsigned int`.
abbrev pub descriptor_bits : ℤ → ℕ
descriptor_bits (pos n) = n % 2 ^ 32
descriptor_bits (negsuc n) = 2 ^ 32 - 1 - n % 2 ^ 32

-- The set that one loop fills, and num_fds.
pub record Filled : Type 0 where
  pub set : FdSet
  pub num_fds : ℕ

-- One of the two loops over the handles.
unfoldable pub fill : ℕ → List ℤ → Filled → Option Filled
fill size [] f = some f
fill size (handle ∷ rest) f =
    let d = descriptor_bits handle in
    let later =
      fill size rest
        (record { set = fd_set d f.set; num_fds = if ltb f.num_fds d then d else f.num_fds }) in
    if ltb d size then later else none

-- tv_sec and tv_usec; `none` is the null pointer.
abbrev pub timeval : ℤ → ℕ → Option (ℕ × ℕ)
timeval (pos seconds) micro = some (seconds % 2 ^ 32, micro)
timeval (negsuc _) micro = none

abbrev pub SystemSelect {ℓ} : Type ℓ → Type ℓ
SystemSelect World = ℕ → FdSet → FdSet → Option (ℕ × ℕ) → World → ℤ × World

-- The sets that ::select leaves are local to the source's function, and lost.
unfoldable pub select {ℓ} :
    {World : Type ℓ} → ℕ → SystemSelect World → List ℤ → List ℤ → ℤ → ℕ → World → Option (ℤ × World)
select size system read_handles write_handles timeout micro world =
    elim (fill size read_handles (record { set = fd_zero; num_fds = 0 })) [
      | none ↦ none
      | some reads ↦
          elim (fill size write_handles (record { set = fd_zero; num_fds = reads.num_fds })) [
            | none ↦ none
            | some writes ↦ some (
                system ((writes.num_fds + 1) % 2 ^ 32) reads.set writes.set (timeval timeout micro)
                  world)
          ]
    ]
