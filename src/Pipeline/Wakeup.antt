-- ===== src/Pipeline/Wakeup.antt =====
-- Source/async_pipeline.cpp: the worker never stops inside a round, and sleeps on no request.
use impact_socket_set.Base.{
  ℕ, ◌+◌, ◌^◌, ◌≤◌, ◌<◌, Bool, false, not, [], length, ◌≡◌, refl, ap, arith,
}
use impact_socket_set.Pipeline.{
  Host, Tables, Pipeline, done, ◌>>=◌, take_work, poll_handles, update_handles, settle, dowork,
  is_ready,
}
use impact_socket_set.Probe.{poll}
use impact_socket_set.Pipeline.Linked.{IsLinked}
use impact_socket_set.Pipeline.Registry.{take_work-refines}
use impact_socket_set.Pipeline.Agreement.{update_handles-pass}
use impact_socket_set.Pipeline.Same.{KeepsSockets}
use impact_socket_set.Pipeline.Steps.{
  waiting, woken, System, takes, polls, sweeps, settles, Reach, later, Alone, rests, then,
  is_worker,
}
use impact_socket_set.Pipeline.Counted.{satisfied, IsCounted-fits}
use impact_socket_set.Pipeline.Invariant.{Reach-IsCounted}

dowork-parts {ℓ κ} :
    {Object : Type ℓ} {World : Type κ} (host : Host Object World) (p q : Pipeline Object)
    (world after : World) (n : ℕ) (b : Bool) (t : Tables Object)
    → take_work host.poll_in p ≡ done (n, q)
    → update_handles host (poll_handles host q world).0.tables (poll_handles host q world).1
      ≡ done (b, (t, after))
    → dowork host p world
      ≡ done (settle (not b) n (record (poll_handles host q world).0 { tables = t }), after)
unfolding dowork
dowork-parts host p q world after n b t took left = rw took (
    ap
      (λ o. o >>= λ r.
        done (settle (not r.0) n (record (poll_handles host q world).0 { tables = r.1.0 }), r.1.1))
      left)

module _ {ℓ κ} {Object : Type ℓ} {World : Type κ} (host : Host Object World)
    (keeps : KeepsSockets host.system_poll) where
  -- In every state that the threads can reach, whatever the order of their steps, every handle has
  -- its object and every object its handle, and neither the queues' part of a round nor the loop
  -- over the handles would use an iterator to a missing key or run on for ever.
  pub Reach-defined :
      {w : World} {s : System Object World}
      → Reach host w s
      → IsLinked s.pipe.tables
        × ((r : ℕ × Pipeline Object) × (take_work host.poll_in s.pipe ≡ done r))
        × ((r : Bool × (Tables Object × World)) × (update_handles host s.pipe.tables s.world
              ≡ done r))
  Reach-defined {w} {s} r =
      let h = Reach-IsCounted host keeps r in
      let (u, ends, _, _) = take_work-refines host.poll_in s.pipe h.linked in
      (
        h.linked,
        (_, ends),
        (_, update_handles-pass host s.pipe.tables s.world h.linked (IsCounted-fits s h)),
      )

  -- When the worker waits and the predicate of its wait is false, there are no more requests in the
  -- queues than calls of add_object or remove_object that have yet to count theirs (for fewer than
  -- 2^31 of the two together). So no request whose call has returned is slept on.
  pub Reach-no_lost_request :
      {w : World} {s : System Object World}
      → Reach host w s
      → s.phase ≡ waiting
      → is_ready s.pipe ≡ false
      → length s.pipe.pending + length s.pipe.removed + s.callers < 2 ^ 31
      → length s.pipe.pending + length s.pipe.removed ≤ s.callers
  unfolding is_ready
  Reach-no_lost_request {w} {s} r phase asleep few =
      let h = Reach-IsCounted host keeps r in
      let none_taken : satisfied s.phase ≡ 0 = ap satisfied phase in
      ground (arith, h.total, h.small, none_taken, asleep, few)

  -- A round that has begun ends: by steps of the worker alone the system comes from the wake-up back to
  -- the wait, in a reachable state with what `_M_dowork` computes, empty queues and linked tables.
  pub Reach-round :
      {w : World} {s : System Object World}
      → Reach host w s
      → s.phase ≡ woken
      → (t : System Object World) × Alone host s t
        × Reach host w t
        × (dowork host s.pipe s.world ≡ done (t.pipe, t.world))
        × (t.phase ≡ waiting)
        × (t.pipe.pending ≡ [])
        × (t.pipe.removed ≡ [])
        × IsLinked t.pipe.tables
  unfolding settle poll_handles poll is_worker
  Reach-round {w} {s} r phase =
      let h = Reach-IsCounted host keeps r in
      let (u, ends, _, _) = take_work-refines host.poll_in s.pipe h.linked in
      let take = takes _ _ phase ends in
      let one = later r take in
      let two = later one (polls _ refl) in
      let h2 = Reach-IsCounted host keeps two in
      let swept_all = update_handles-pass host _ _ h2.linked (IsCounted-fits _ h2) in
      let three = later two (sweeps _ _ _ _ refl swept_all) in
      let four = later three (settles _ _ refl) in
      (
        _,
        then
            (then (then (then rests take refl) (polls _ refl) refl) (sweeps _ _ _ _ refl swept_all)
              refl)
            (settles _ _ refl) refl,
        four,
        dowork-parts host s.pipe _ s.world _ _ _ _ ends swept_all,
        refl,
        refl,
        refl,
        (Reach-IsCounted host keeps four).linked,
      )
