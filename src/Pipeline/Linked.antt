-- ===== src/Pipeline/Linked.antt =====
-- Source/async_pipeline.cpp: every handle has its object and every object its handle.
use impact_socket_set.Base.{
  ℕ, true, false, if◌then◌else◌, ◌==◌, none, some, List, [], ◌∷◌, ◌++◌, ◌≡◌, refl, sym, ◌∙◌, inl,
  inr, Bool-cases, arith,
}
use impact_socket_set.Base.Int.{pos, magnitude}
use impact_socket_set.Base.Assoc.{
  Assoc, lookup, has, erase_key, has-assign, lookup-assign, has-erase_key, lookup-erase_key,
  lookup-found, lookup-missing,
}
use impact_socket_set.Probe.{PollHandle}
use impact_socket_set.Pipeline.{Tables, done, watches, erase_handle, copy_token, remove_token}

-- No two handles watch the same socket, ignored or not.
unfoldable pub IsDistinct : List PollHandle → Type 0
IsDistinct [] = Unit
IsDistinct (handle ∷ rest) = (watches (magnitude handle.socket) rest ≡ false) × IsDistinct rest

pub record IsLinked {ℓ} {Object : Type ℓ} (t : Tables Object) : Type 0 where
  pub distinct : IsDistinct t.handles
  pub matched : (socket : ℕ) → has socket t.info ≡ watches socket t.handles

pub watches-append :
    (socket : ℕ) (xs ys : List PollHandle)
    → watches socket (xs ++ ys) ≡ (if watches socket xs then true else watches socket ys)
watches-append socket [] ys = refl
watches-append socket (x ∷ xs) ys = ground (arith, watches-append socket xs ys)

append-IsDistinct :
    (handle : PollHandle) (xs : List PollHandle)
    → IsDistinct xs
    → watches (magnitude handle.socket) xs ≡ false
    → IsDistinct (xs ++ (handle ∷ []))
unfolding IsDistinct
append-IsDistinct handle [] h fresh = (refl, tt)
append-IsDistinct handle (x ∷ xs) h fresh = (
  ground (arith, watches-append (magnitude x.socket) xs (handle ∷ []), fresh, h.0),
  append-IsDistinct handle xs h.1 (ground (arith, fresh)),
)

pub watches-erase_handle :
    (other socket : ℕ) (xs : List PollHandle)
    → IsDistinct xs
    → watches other (erase_handle socket xs) ≡ (if socket == other then false else watches other xs)
unfolding IsDistinct
watches-erase_handle other socket [] h = ground arith
watches-erase_handle other socket (x ∷ xs) h =
    ground (arith, watches-erase_handle other socket xs h.1, h.0)

pub erase_handle-IsDistinct :
    (socket : ℕ) (xs : List PollHandle) → IsDistinct xs → IsDistinct (erase_handle socket xs)
unfolding IsDistinct
erase_handle-IsDistinct socket [] h = tt
erase_handle-IsDistinct socket (x ∷ xs) h = ground (
  arith,
  erase_handle-IsDistinct socket xs h.1,
  watches-erase_handle (magnitude x.socket) socket xs h.1,
  h.0,
)

module _ {ℓ} {Object : Type ℓ} where
  -- A copied token keeps the tables linked and is what its socket has from then on.
  pub copy_token-result :
      (events : ℕ) (token : ℕ × Object) (t : Tables Object)
      → IsLinked t
      → IsLinked (copy_token events token t)
        × ((other : ℕ)
            → lookup other (copy_token events token t).info
              ≡ (if token.0 == other then some token.1 else lookup other t.info))
  unfolding copy_token
  copy_token-result events token t h = elim (Bool-cases (has token.0 t.info)) [
    | inl found ↦
        let there = lookup-found token.0 t.info found in
        rw (there.1, copy_token)
          (
            record {
              distinct = h.distinct;
              matched = λ other. ground (
                arith,
                has-assign other token.0 token.1 t.info,
                h.matched other,
                h.matched token.0,
                found,
              );
            },
            λ other. lookup-assign other token.0 token.1 t.info,
          )
    | inr missing ↦
        rw (lookup-missing token.0 t.info missing, copy_token)
          (
            record {
              distinct =
                  append-IsDistinct _ t.handles h.distinct (sym (h.matched token.0) ∙ missing);
              matched = λ other. ground (
                arith,
                has-assign other token.0 token.1 t.info,
                h.matched other,
                watches-append other t.handles
                    (record { socket = pos token.0; events = events; return_events = 0 } ∷ []),
              );
            },
            λ other. lookup-assign other token.0 token.1 t.info,
          )
  ]

  -- A removal from linked tables is defined, keeps them linked and takes the socket out.
  pub remove_token-result :
      (socket : ℕ) (t : Tables Object)
      → IsLinked t
      → (u : Tables Object) × (remove_token socket t ≡ done u)
        × IsLinked u
        × ((other : ℕ)
            → lookup other u.info ≡ (if socket == other then none else lookup other t.info))
  unfolding remove_token
  remove_token-result socket t h = elim (Bool-cases (watches socket t.handles)) [
    | inl found ↦
        let there = lookup-found socket t.info (h.matched socket ∙ found) in
        (
          record { handles = erase_handle socket t.handles; info = erase_key socket t.info },
          rw (found, there.1, remove_token) refl,
          record {
            distinct = erase_handle-IsDistinct socket t.handles h.distinct;
            matched = λ other. ground (
              arith,
              has-erase_key other socket t.info,
              h.matched other,
              watches-erase_handle other socket t.handles h.distinct,
            );
          },
          λ other. lookup-erase_key other socket t.info,
        )
    | inr missing ↦ (
      t,
      rw (missing, remove_token) refl,
      h,
      λ other. ground (arith, lookup-missing socket t.info (h.matched socket ∙ missing)),
    )
  ]

  -- Every handle of a list has its object.
  abbrev pub IsServed : List PollHandle → Assoc Object → Type 0
  IsServed handles info = (socket : ℕ) → watches socket handles ≡ true → has socket info ≡ true

  pub IsServed-head :
      (key : PollHandle) (rest : List PollHandle) (info : Assoc Object)
      → IsServed (key ∷ rest) info
      → (object : Object) × (lookup (magnitude key.socket) info ≡ some object)
  IsServed-head key rest info served =
      lookup-found (magnitude key.socket) info (served (magnitude key.socket) (ground arith))

  pub IsServed-tail :
      (key : PollHandle) (rest : List PollHandle) (info : Assoc Object)
      → IsServed (key ∷ rest) info
      → IsServed rest info
  IsServed-tail key rest info served socket seen = served socket (ground (arith, seen))

  pub IsServed-erase :
      (key : PollHandle) (rest : List PollHandle) (info : Assoc Object)
      → watches (magnitude key.socket) rest ≡ false
      → IsServed (key ∷ rest) info
      → IsServed rest (erase_key (magnitude key.socket) info)
  IsServed-erase key rest info fresh served socket seen = ground (
    arith,
    has-erase_key socket (magnitude key.socket) info,
    IsServed-tail key rest info served socket seen,
    fresh,
    seen,
  )
