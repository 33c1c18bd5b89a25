-- ===== src/Pipeline/Agreement.antt =====
-- Source/async_pipeline.cpp, _M_update_handles: the loop ends, and does what one pass does.
use impact_socket_set.Base.{
  ℕ, zero, suc, ◌+◌, ◌^◌, ◌<◌, Bool, true, false, if◌then◌else◌, ◌==◌, ltb, List, [], ◌∷◌, ◌++◌,
  length, length-append, append_assoc, append-nil, ◌≡◌, refl, sym, ap, ◌∙◌, arith, ◌⊎◌, inl, inr,
}
use impact_socket_set.Base.Int.{ℤ, pos, magnitude, negate}
use impact_socket_set.Base.Assoc.{Assoc, erase_key}
use impact_socket_set.Probe.{PollHandle}
use impact_socket_set.Pipeline.{
  AsyncOption, continue, ignore, quit, Host, Tables, done, Sweep, keep, drop_object, dispatch,
  sweep_step, sweep, update_handles, count_zero, ◌>>=◌,
}
use impact_socket_set.Pipeline.Linked.{
  IsDistinct, IsLinked, IsServed, IsServed-head, IsServed-tail, IsServed-erase,
}
use impact_socket_set.Pipeline.Sweeps.{
  Pass, pass, between, finished, rearmed, handles_of, all_ignored, count_ignored, with_kept,
  pass-continue, pass-ignore, pass-quit,
}
use impact_socket_set.Pipeline.Rounds.{
  sweep_step-calls, keep-between, drop_object-between, negate-counts,
}

pub AsyncOption-cases : (o : AsyncOption) → (o ≡ continue) ⊎ (o ≡ ignore) ⊎ (o ≡ quit)
AsyncOption-cases continue = inl refl
AsyncOption-cases ignore = inr (inl refl)
AsyncOption-cases quit = inr (inr refl)

module _ {ℓ κ} {Object : Type ℓ} {World : Type κ} (host : Host Object World) where
  -- A round before the end of the handles.
  sweep-round :
      (fuel : ℕ) (error : ℤ) (front : List PollHandle) (key : PollHandle) (rest : List PollHandle)
      (ignored : ℕ) (info : Assoc Object) (world : World)
      → sweep host (suc fuel) error (between front (key ∷ rest) ignored info world) ≡ (
          sweep_step host error (between front (key ∷ rest) ignored info world)
          >>= sweep host fuel error)
  unfolding sweep
  sweep-round fuel error front key rest ignored info world =
      let more : ltb (length front) (length (front ++ (key ∷ rest))) ≡ true =
        ground (arith, length-append front (key ∷ rest)) in
      rw more refl

  sweep-end :
      (fuel : ℕ) (error : ℤ) (front : List PollHandle) (ignored : ℕ) (info : Assoc Object)
      (world : World)
      → sweep host (suc fuel) error (between front [] ignored info world)
        ≡ done (between front [] ignored info world)
  unfolding sweep
  sweep-end fuel error front ignored info world =
      let last : ltb (length front) (length (front ++ [])) ≡ false =
        ground (arith, length-append front []) in
      rw last refl

  finished-kept :
      (front : List PollHandle) (ignored : ℕ) (handle : PollHandle) (b : Bool)
      (p : Pass Object World)
      → finished (front ++ (handle ∷ [])) (if b then suc ignored else ignored) p
        ≡ finished front ignored (with_kept (handle, b) p)
  finished-kept front ignored handle b p =
      let count : (if b then suc ignored else ignored) + count_ignored p.kept
          ≡ ignored + count_ignored ((handle, b) ∷ p.kept) =
        ground arith in
      rw (count, append_assoc front (handle ∷ []) (handles_of p.kept)) refl

  finished-nil :
      (front : List PollHandle) (ignored : ℕ) (info : Assoc Object) (world : World)
      → between front [] ignored info world
        ≡ finished front ignored (record { kept = []; info = info; world = world })
  finished-nil front ignored info world =
      let count : ignored + 0 ≡ ignored = omega arith in
      let index : length (front ++ []) ≡ length front = ap length (append-nil front) in
      rw (count, index) refl

  -- With fuel for the handles that are left, the loop ends where the pass ends.
  sweep-pass :
      (fuel : ℕ) (error : ℤ) (front rest : List PollHandle) (ignored : ℕ) (info : Assoc Object)
      (world : World)
      → length rest < fuel
      → length front + length rest < 2 ^ 64
      → IsDistinct rest
      → IsServed rest info
      → sweep host fuel error (between front rest ignored info world)
        ≡ done (finished front ignored (pass host error rest info world))
  unfolding pass IsDistinct
  sweep-pass zero error front rest ignored info world enough fits distinct served =
      absurd (omega arith)
  sweep-pass (suc fuel) error front [] ignored info world enough fits distinct served =
      sweep-end fuel error front ignored info world
      ∙ ap done (finished-nil front ignored info world)
  sweep-pass (suc fuel) error front (key ∷ rest) ignored info world enough fits distinct served =
      let socket = magnitude key.socket in
      let (object, found) = IsServed-head key rest info served in
      let reply = host.async_callback object key error world in
      let s : Sweep Object World = between front (key ∷ rest) ignored info world in
      let called : sweep host (suc fuel) error s
          ≡ sweep host fuel error (dispatch host socket reply s) =
        sweep-round fuel error front key rest ignored info world
        ∙ ap (λ o. o >>= sweep host fuel error)
            (sweep_step-calls host error front key rest ignored info world object found) in
      let kept = λ (to : ℤ) (count : ℕ).
        keep-between host front key rest ignored info world to count reply (omega arith) in
      let later = λ (to : ℤ) (count : ℕ).
        let handle : PollHandle = rearmed to reply.handle in
        sweep-pass fuel error (front ++ (handle ∷ [])) rest count info reply.world (omega arith)
          (omega (arith, length-append front (handle ∷ []))) distinct.1
          (IsServed-tail key rest info served) in
      elim (AsyncOption-cases reply.option) [
        | inl e ↦
            let case : dispatch host socket reply s ≡ keep host (pos socket) ignored reply s =
              rw e refl in
            called
            ∙ ap (sweep host fuel error) (case ∙ kept (pos socket) ignored)
            ∙ later (pos socket) ignored
            ∙ ap done (finished-kept front ignored (rearmed (pos socket) reply.handle) false _)
            ∙ ap (λ p. done (finished front ignored p))
                (sym (pass-continue host error key rest info world object found e))
        | inr (inl e) ↦
            let case : dispatch host socket reply s
                ≡ keep host (negate socket) (count_zero socket ignored) reply s =
              rw e refl in
            called
            ∙ ap (sweep host fuel error) (case ∙ kept (negate socket) (count_zero socket ignored))
            ∙ ap
                (λ n. sweep host fuel error (
                  between (front ++ (rearmed (negate socket) reply.handle ∷ [])) rest n info
                    reply.world))
                (negate-counts socket ignored)
            ∙ later (negate socket) (suc ignored)
            ∙ ap done (finished-kept front ignored (rearmed (negate socket) reply.handle) true _)
            ∙ ap (λ p. done (finished front ignored p))
                (sym (pass-ignore host error key rest info world object found e))
        | inr (inr e) ↦
            let case : dispatch host socket reply s ≡ drop_object host socket reply s = rw e refl in
            called
            ∙ ap (sweep host fuel error) (
                case
                ∙ drop_object-between host front key rest ignored info world socket reply
                    (omega arith))
            ∙ sweep-pass fuel error front rest ignored (erase_key socket info) reply.world
                (omega arith) (omega arith) distinct.1
                (IsServed-erase key rest info distinct.0 served)
            ∙ ap (λ p. done (finished front ignored p))
                (sym (pass-quit host error key rest info world object found e))
      ]

  count_ignored-all :
      (entries : List (PollHandle × Bool))
      → (count_ignored entries < suc (length (handles_of entries)))
        × ((count_ignored entries == length (handles_of entries)) ≡ all_ignored entries)
  count_ignored-all [] = (omega arith, refl)
  count_ignored-all (entry ∷ rest) =
      let (fewer, agree) = count_ignored-all rest in
      (ground (arith, fewer), ground (arith, fewer, agree))

  -- For linked tables of fewer than 2^64 handles the loop of `_M_update_handles` ends, with every
  -- iterator valid: it does exactly one pass over the handles, and answers whether every handle
  -- that stays is ignored.
  pub update_handles-pass :
      (t : Tables Object) (world : World)
      → IsLinked t
      → length t.handles < 2 ^ 64
      → update_handles host t world ≡ (
          let p = pass host (host.error_code world) t.handles t.info world in
          done
            (all_ignored p.kept, (record { handles = handles_of p.kept; info = p.info }, p.world)))
  unfolding update_handles
  update_handles-pass t world linked fits =
      let error = host.error_code world in
      let p = pass host error t.handles t.info world in
      ap (λ o. o >>= λ s. done (s.ignored == length s.tables.handles, (s.tables, s.world)))
        (sweep-pass (suc (length t.handles)) error [] t.handles 0 t.info world (omega arith)
          (omega arith) linked.distinct (λ socket seen. linked.matched socket ∙ seen))
      ∙ ap (λ b. done (b, (record { handles = handles_of p.kept; info = p.info }, p.world)))
          (ap (λ n. n == length (handles_of p.kept)) (omega arith) ∙ (count_ignored-all p.kept).1)
