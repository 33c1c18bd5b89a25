-- ===== src/Pipeline/Rounds.antt =====
-- Source/async_pipeline.cpp, _M_update_handles: one round of the loop in each case of the switch.
use impact_socket_set.Base.{
  ℕ, zero, suc, ◌+◌, ◌-◌, ◌%◌, ◌^◌, ◌<◌, none, some, List, [], ◌∷◌, ◌++◌, length, length-append,
  get_or-middle, set_at-middle, erase_at-middle, append_assoc, ◌≡◌, refl, ap, ◌∙◌, arith,
}
use impact_socket_set.Base.Int.{ℤ, magnitude, negate}
use impact_socket_set.Base.Assoc.{Assoc, lookup, erase_key}
use impact_socket_set.Probe.{PollHandle, poll_handle}
use impact_socket_set.Pipeline.{
  Reply, Host, Outcome, done, undefined, Sweep, keep, drop_object, dispatch, sweep_step,
  count_negative, count_zero,
}
use impact_socket_set.Pipeline.Sweeps.{between, rearmed}

pub negate-counts :
    (socket ignored : ℕ) → count_negative (negate socket) (count_zero socket ignored) ≡ suc ignored
negate-counts zero ignored = refl
negate-counts (suc n) ignored = ground arith

module _ {ℓ κ} {Object : Type ℓ} {World : Type κ} (host : Host Object World) where
  -- The round reads the handle at the index and calls its object.
  pub sweep_step-calls :
      (error : ℤ) (front : List PollHandle) (key : PollHandle) (rest : List PollHandle)
      (ignored : ℕ) (info : Assoc Object) (world : World) (object : Object)
      → lookup (magnitude key.socket) info ≡ some object
      → sweep_step host error (between front (key ∷ rest) ignored info world)
        ≡ done (
            dispatch host
              (magnitude key.socket)
              (host.async_callback object key error world)
              (between front (key ∷ rest) ignored info world))
  unfolding sweep_step
  sweep_step-calls error front key rest ignored info world object found =
      let s : Sweep Object World = between front (key ∷ rest) ignored info world in
      let called : PollHandle → Outcome (Sweep Object World) = λ k.
        elim (lookup (magnitude k.socket) info) [
          | none ↦ undefined
          | some o ↦
              done (dispatch host (magnitude k.socket) (host.async_callback o k error world) s)
        ] in
      ap called (get_or-middle front rest key poll_handle) ∙ rw found refl

  next_index :
      (front : List PollHandle) (key : PollHandle)
      → length front + 1 < 2 ^ 64
      → (length front + 1) % 2 ^ 64 ≡ length (front ++ (key ∷ []))
  next_index front key fits = omega (arith, length-append front (key ∷ []))

  pub keep-between :
      (front : List PollHandle) (key : PollHandle) (rest : List PollHandle) (before : ℕ)
      (info : Assoc Object) (world : World) (socket : ℤ) (ignored : ℕ) (reply : Reply World)
      → length front + 1 < 2 ^ 64
      → keep host socket ignored reply (between front (key ∷ rest) before info world)
        ≡ between
            (front ++ (rearmed socket reply.handle ∷ []))
            rest
            (count_negative socket ignored)
            info
            reply.world
  unfolding keep
  keep-between front key rest before info world socket ignored reply fits =
      rw
        (
          next_index front (rearmed socket reply.handle) fits,
          set_at-middle front rest key (rearmed socket reply.handle),
          append_assoc front (rearmed socket reply.handle ∷ []) rest,
        )
        refl

  pub drop_object-between :
      (front : List PollHandle) (key : PollHandle) (rest : List PollHandle) (ignored : ℕ)
      (info : Assoc Object) (world : World) (socket : ℕ) (reply : Reply World)
      → length front + 1 < 2 ^ 64
      → drop_object host socket reply (between front (key ∷ rest) ignored info world)
        ≡ between front rest ignored (erase_key socket info) reply.world
  unfolding drop_object
  drop_object-between front key rest ignored info world socket reply fits =
      let back : ((length front + (2 ^ 64 - 1)) % 2 ^ 64 + 1) % 2 ^ 64 ≡ length front =
        omega arith in
      rw (back, erase_at-middle front rest key) refl
