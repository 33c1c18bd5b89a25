-- ===== src/Pipeline/Same.antt =====
-- Source/async_pipeline.cpp: the handles as a list of sockets.
use impact_socket_set.Base.{
  ℕ, zero, suc, ◌≤◌, ◌==◌, ==_iff, Bool-cases, inl, inr, true, false, List, [], ◌∷◌, map, length,
  ◌≡◌, refl, sym, ap, ◌∙◌, arith,
}
use impact_socket_set.Base.Int.{ℤ, magnitude}
use impact_socket_set.Probe.{PollHandle, SystemPoll}
use impact_socket_set.Pipeline.{Tables, watches, erase_handle}
use impact_socket_set.Pipeline.Linked.{
  IsDistinct, IsLinked, watches-erase_handle, erase_handle-IsDistinct,
}
use impact_socket_set.Pipeline.Steps.{Phase, taken, polled, swept}

abbrev pub sockets_of : List PollHandle → List ℤ
sockets_of = map (λ handle. handle.socket)

-- `::poll` writes the events that came, never the sockets.
abbrev pub KeepsSockets {ℓ} : {World : Type ℓ} → SystemPoll World → Type ℓ
KeepsSockets {World = World} system =
    (handles : List PollHandle) (timeout : ℤ) (world : World)
    → sockets_of (system handles timeout world).0 ≡ sockets_of handles

pub watches-sockets_of :
    (socket : ℕ) (xs ys : List PollHandle)
    → sockets_of xs ≡ sockets_of ys
    → watches socket xs ≡ watches socket ys
watches-sockets_of socket [] [] same = refl
watches-sockets_of socket [] (y ∷ ys) same = cc
watches-sockets_of socket (x ∷ xs) [] same = cc
watches-sockets_of socket (x ∷ xs) (y ∷ ys) same =
    let first : x.socket ≡ y.socket = cc in
    let rest : sockets_of xs ≡ sockets_of ys = cc in
    ground (arith, first, watches-sockets_of socket xs ys rest)

length-erase_handle :
    (socket : ℕ) (xs : List PollHandle)
    → watches socket xs ≡ true
    → length xs ≡ suc (length (erase_handle socket xs))
length-erase_handle socket [] seen = cc
length-erase_handle socket (x ∷ xs) seen = ground (arith, length-erase_handle socket xs, seen)

IsDistinct-sockets_of :
    (xs ys : List PollHandle) → sockets_of xs ≡ sockets_of ys → IsDistinct ys → IsDistinct xs
unfolding IsDistinct
IsDistinct-sockets_of [] ys same h = tt
IsDistinct-sockets_of (x ∷ xs) [] same h = cc
IsDistinct-sockets_of (x ∷ xs) (y ∷ ys) same h =
    let first : x.socket ≡ y.socket = cc in
    let rest : sockets_of xs ≡ sockets_of ys = cc in
    (
      watches-sockets_of (magnitude x.socket) xs ys rest
          ∙ ap (λ s. watches (magnitude s) ys) first
          ∙ h.0,
      IsDistinct-sockets_of xs ys rest h.1,
    )

-- A list of distinct sockets below a bound is no longer than the bound.
pub length-IsDistinct :
    (bound : ℕ) (xs : List PollHandle)
    → IsDistinct xs
    → ((socket : ℕ) → bound ≤ socket → watches socket xs ≡ false)
    → length xs ≤ bound
length-IsDistinct zero [] distinct below = omega arith
length-IsDistinct zero (x ∷ xs) distinct below =
    absurd (ground (arith, below (magnitude x.socket) (omega arith)))
length-IsDistinct (suc bound) xs distinct below = elim (Bool-cases (watches bound xs)) [
  | inl seen ↦
      let fewer =
        length-IsDistinct bound (erase_handle bound xs) (erase_handle-IsDistinct bound xs distinct)
          (λ socket least.
            ground (arith, watches-erase_handle socket bound xs distinct, below socket)) in
      omega (arith, length-erase_handle bound xs seen, fewer)
  | inr unseen ↦
      let fewer = length-IsDistinct bound xs distinct (λ socket least.
        elim (Bool-cases (socket == bound)) [
          | inl e ↦ rw ((==_iff socket bound).0 e) unseen
          | inr e ↦ below socket (ground (arith, e))
        ]) in
      omega (arith, fewer)
]

module _ {ℓ} {Object : Type ℓ} where
  pub same_sockets-IsLinked :
      (t u : Tables Object)
      → sockets_of u.handles ≡ sockets_of t.handles
      → u.info ≡ t.info
      → IsLinked t
      → IsLinked u
  same_sockets-IsLinked t u same info h = record {
    distinct = IsDistinct-sockets_of u.handles t.handles same h.distinct;
    matched = λ socket.
        rw info (h.matched socket ∙ sym (watches-sockets_of socket u.handles t.handles same));
  }

-- The requests that a round under way has taken but not yet counted off.
abbrev pub satisfied : Phase → ℕ
satisfied (taken n) = n
satisfied (polled n) = n
satisfied (swept has_work n) = n
satisfied _ = 0
