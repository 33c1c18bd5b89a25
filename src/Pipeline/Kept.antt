-- ===== src/Pipeline/Kept.antt =====
-- Source/async_pipeline.cpp, _M_update_handles: a pass keeps handles and objects in step.
use impact_socket_set.Base.{
  ℕ, zero, suc, Bool, true, false, if◌then◌else◌, List, [], ◌∷◌, ◌≡◌, refl, ◌∙◌, arith, inl, inr,
}
use impact_socket_set.Base.Int.{ℤ, magnitude, negate}
use impact_socket_set.Base.Assoc.{Assoc, has, erase_key, has-erase_key}
use impact_socket_set.Probe.{PollHandle}
use impact_socket_set.Pipeline.{Host, Tables, watches}
use impact_socket_set.Pipeline.Linked.{
  IsDistinct, IsLinked, IsServed, IsServed-head, IsServed-tail, IsServed-erase,
}
use impact_socket_set.Pipeline.Sweeps.{
  Pass, pass, rearmed, handles_of, with_kept, pass-continue, pass-ignore, pass-quit,
}
use impact_socket_set.Pipeline.Agreement.{AsyncOption-cases}

magnitude-negate : (n : ℕ) → magnitude (negate n) ≡ n
magnitude-negate zero = refl
magnitude-negate (suc n) = refl

module _ {ℓ κ} {Object : Type ℓ} {World : Type κ} where
  -- A pass over some of the handles touches the objects of these sockets only, and leaves the ones
  -- whose handles stay.
  record Covers (rest : List PollHandle) (info : Assoc Object) (p : Pass Object World)
      : Type 0 where
    distinct : IsDistinct (handles_of p.kept)
    fewer : (socket : ℕ) → watches socket (handles_of p.kept) ≡ true → watches socket rest ≡ true
    matched :
        (socket : ℕ)
        → has socket p.info
          ≡ (if watches socket rest then watches socket (handles_of p.kept) else has socket info)

  keep-Covers :
      (key handle : PollHandle) (b : Bool) (rest : List PollHandle) (info : Assoc Object)
      (p : Pass Object World)
      → magnitude handle.socket ≡ magnitude key.socket
      → IsDistinct (key ∷ rest)
      → IsServed (key ∷ rest) info
      → Covers rest info p
      → Covers (key ∷ rest) info (with_kept (handle, b) p)
  unfolding IsDistinct
  keep-Covers key handle b rest info p same distinct served c = record {
    distinct = (ground (arith, same, distinct.0, c.fewer (magnitude handle.socket)), c.distinct);
    fewer = λ socket seen. ground (arith, same, c.fewer socket, seen);
    matched =
        λ socket. ground (arith, same, c.matched socket, served socket, distinct.0, c.fewer socket);
  }

  quit-Covers :
      (key : PollHandle) (rest : List PollHandle) (info : Assoc Object) (p : Pass Object World)
      → IsDistinct (key ∷ rest)
      → Covers rest (erase_key (magnitude key.socket) info) p
      → Covers (key ∷ rest) info p
  unfolding IsDistinct
  quit-Covers key rest info p distinct c = record {
    distinct = c.distinct;
    fewer = λ socket seen. ground (arith, c.fewer socket, seen);
    matched = λ socket. ground (
      arith,
      c.matched socket,
      has-erase_key socket (magnitude key.socket) info,
      distinct.0,
      c.fewer socket,
    );
  }

  pass-Covers :
      (host : Host Object World) (error : ℤ) (rest : List PollHandle) (info : Assoc Object)
      (world : World)
      → IsDistinct rest
      → IsServed rest info
      → Covers rest info (pass host error rest info world)
  unfolding pass IsDistinct
  pass-Covers host error [] info world distinct served = record {
    distinct = tt;
    fewer = λ _ seen. seen;
    matched = λ _. refl;
  }
  pass-Covers host error (key ∷ rest) info world distinct served =
      let (object, found) = IsServed-head key rest info served in
      let reply = host.async_callback object key error world in
      let later =
        pass-Covers host error rest info reply.world distinct.1
          (IsServed-tail key rest info served) in
      let kept = λ (to : ℤ) (b : Bool) (same : magnitude to ≡ magnitude key.socket).
        keep-Covers key (rearmed to reply.handle) b rest info _ same distinct served later in
      elim (AsyncOption-cases reply.option) [
        | inl e ↦
            rw (pass-continue host error key rest info world object found e) (kept _ false refl)
        | inr (inl e) ↦
            rw (pass-ignore host error key rest info world object found e)
              (kept _ true (magnitude-negate (magnitude key.socket)))
        | inr (inr e) ↦ rw (pass-quit host error key rest info world object found e) (
            quit-Covers key rest info _ distinct (
              pass-Covers host error rest _ reply.world distinct.1
                (IsServed-erase key rest info distinct.0 served)))
      ]

  -- A pass over linked tables leaves linked tables.
  pub pass-IsLinked :
      (host : Host Object World) (error : ℤ) (t : Tables Object) (world : World)
      → IsLinked t
      → (let p = pass host error t.handles t.info world in
          IsLinked (record { handles = handles_of p.kept; info = p.info }))
  pass-IsLinked host error t world linked =
      let c =
        pass-Covers host error t.handles t.info world linked.distinct
          (λ socket seen. linked.matched socket ∙ seen) in
      record {
        distinct = c.distinct;
        matched = λ socket. ground (arith, c.matched socket, c.fewer socket, linked.matched socket);
      }

  -- A pass watches no socket that was not watched before.
  pub pass-fewer :
      (host : Host Object World) (error : ℤ) (t : Tables Object) (world : World) (socket : ℕ)
      → IsLinked t
      → watches socket t.handles ≡ false
      → watches socket (handles_of (pass host error t.handles t.info world).kept) ≡ false
  pass-fewer host error t world socket linked unseen =
      let c =
        pass-Covers host error t.handles t.info world linked.distinct
          (λ other seen. linked.matched other ∙ seen) in
      ground (arith, c.fewer socket, unseen)
