-- ===== src/Pipeline/Invariant.antt =====
-- Source/async_pipeline.cpp: what holds between any two steps of the threads.
use impact_socket_set.Base.{not, ◌≡◌, refl, sym, ap, arith}
use impact_socket_set.Base.Int.{pos, negsuc}
use impact_socket_set.Pipeline.{
  Host, initial, set_granularity, notify_pending, notify, settle, close,
}
use impact_socket_set.Pipeline.Linked.{IsDistinct}
use impact_socket_set.Pipeline.Steps.{
  System, Step, adds, removes, counts, notifies, retimes, closes, moves, wakes, stops, takes, polls,
  sweeps, settles, start, Reach, starts, later,
}
use impact_socket_set.Pipeline.Same.{KeepsSockets}
use impact_socket_set.Pipeline.Counted.{
  satisfied, IsCounted, unmoved, adds-IsCounted, removes-IsCounted, takes-IsCounted,
  polls-IsCounted, sweeps-IsCounted,
}

module _ {ℓ κ} {Object : Type ℓ} {World : Type κ} where
  -- Every step of every thread keeps the invariant.
  pub Step-IsCounted :
      (host : Host Object World)
      → KeepsSockets host.system_poll
      → {s t : System Object World} → Step host s t
      → IsCounted s
      → IsCounted t
  unfolding notify_pending notify set_granularity close settle
  Step-IsCounted host keeps {s} (adds socket object p int ok) h =
      adds-IsCounted s socket object p int ok h
  Step-IsCounted host keeps {s} (removes socket p ok) h = removes-IsCounted s socket p ok h
  Step-IsCounted host keeps {s} (counts n caller) h = record {
    linked = h.linked;
    ints = h.ints;
    queued = h.queued;
    small = omega arith;
    round = h.round;
    total = omega (arith, h.total, caller);
  }
  Step-IsCounted host keeps {s} notifies h = unmoved s _ refl refl refl refl refl refl h
  Step-IsCounted host keeps {s} (retimes (pos n)) h = unmoved s _ refl refl refl refl refl refl h
  Step-IsCounted host keeps {s} (retimes (negsuc n)) h = unmoved s _ refl refl refl refl refl refl h
  Step-IsCounted host keeps {s} closes h = unmoved s _ refl refl refl refl refl refl h
  Step-IsCounted host keeps {s} (moves w) h = unmoved s _ refl refl refl refl refl refl h
  Step-IsCounted host keeps {s} (wakes phase ready going) h =
      unmoved s _ refl refl refl refl refl (sym (ap satisfied phase)) h
  Step-IsCounted host keeps {s} (stops phase ready closing) h =
      unmoved s _ refl refl refl refl refl (sym (ap satisfied phase)) h
  Step-IsCounted host keeps {s} (takes n p phase ok) h =
      takes-IsCounted host.poll_in s n p (ap satisfied phase) ok h
  Step-IsCounted host keeps {s} (polls n phase) h = polls-IsCounted host s n keeps phase h
  Step-IsCounted host keeps {s} (sweeps n ignored t w phase ok) h =
      sweeps-IsCounted host s n ignored (not ignored) t w phase ok h
  Step-IsCounted host keeps {s} (settles n has_work phase) h =
      let swept_n : satisfied s.phase ≡ n = ap satisfied phase in
      record {
        linked = h.linked;
        ints = h.ints;
        queued = h.queued;
        small = omega arith;
        round = omega arith;
        total = omega (arith, swept_n, h.total, h.round);
      }

  start-IsCounted : (host : Host Object World) (world : World) → IsCounted (start host world)
  unfolding initial IsDistinct
  start-IsCounted host world = record {
    linked = record { distinct = tt; matched = λ socket. refl };
    ints = λ socket large. refl;
    queued = tt;
    small = omega arith;
    round = omega arith;
    total = refl;
  }

  pub Reach-IsCounted :
      (host : Host Object World)
      → KeepsSockets host.system_poll
      → {w : World} {s : System Object World} → Reach host w s
      → IsCounted s
  Reach-IsCounted host keeps {w} starts = start-IsCounted host w
  Reach-IsCounted host keeps (later r st) =
      Step-IsCounted host keeps st (Reach-IsCounted host keeps r)
