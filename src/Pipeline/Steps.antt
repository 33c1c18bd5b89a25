-- ===== src/Pipeline/Steps.antt =====
-- Source/async_pipeline.cpp: the threads. Each step is one critical section or one phase of the
-- worker, and the callers' steps fall between the worker's in any order.
-- A call of add_object or remove_object is two steps: the queue under m_work_mtx_, then the count
-- under m_thread_mtx_ (a socket is an int, of 32 bits); `callers` counts the calls between the two. The wait of the condition
-- variable is over when its predicate holds. A callback that calls add_object is such a caller.
use impact_socket_set.Base.{ℕ, suc, ◌^◌, ◌<◌, Bool, true, false, not, some, ◌≡◌}
use impact_socket_set.Base.Int.{ℤ, magnitude}
use impact_socket_set.Pipeline.{
  Host, Tables, Pipeline, done, initial, set_granularity, add_object, remove_object, notify_pending,
  notify, take_work, poll_handles, update_handles, settle, is_ready, close,
}

-- Where the worker is: in the wait, before the locked scope of _M_dowork, before `poll`, before
-- _M_update_handles, before the last locked scope, or out of its loop.
pub data Phase : Type 0 where
  waiting woken stopped : Phase
  taken : ℕ → Phase
  polled : ℕ → Phase
  swept : Bool → ℕ → Phase

pub record System {ℓ κ} (Object : Type ℓ) (World : Type κ) : Type (ℓ ⊔ κ) where
  pub pipe : Pipeline Object
  pub phase : Phase
  pub callers : ℕ
  pub world : World

module _ {ℓ κ} {Object : Type ℓ} {World : Type κ} (host : Host Object World) where
  pub data Step (s : System Object World) : System Object World → Type (ℓ ⊔ κ) where
    adds :
        (socket : ℤ) (object : Object) (p : Pipeline Object)
        → magnitude socket < 2 ^ 31
        → add_object socket object s.pipe ≡ some p
        → Step s (record s { pipe = p; callers = suc s.callers })
    removes :
        (socket : ℤ) (p : Pipeline Object)
        → remove_object socket s.pipe ≡ some p
        → Step s (record s { pipe = p; callers = suc s.callers })
    counts :
        (n : ℕ)
        → s.callers ≡ suc n
        → Step s (record s { pipe = notify_pending 1 s.pipe; callers = n })
    notifies : Step s (record s { pipe = notify s.pipe })
    retimes : (milliseconds : ℤ) → Step s (record s { pipe = set_granularity milliseconds s.pipe })
    closes : Step s (record s { pipe = close s.pipe })
    moves : (world : World) → Step s (record s { world = world })
    wakes :
        s.phase ≡ waiting
        → is_ready s.pipe ≡ true
        → s.pipe.closing ≡ false
        → Step s (record s { phase = woken })
    stops :
        s.phase ≡ waiting
        → is_ready s.pipe ≡ true
        → s.pipe.closing ≡ true
        → Step s (record s { phase = stopped })
    takes :
        (n : ℕ) (p : Pipeline Object)
        → s.phase ≡ woken
        → take_work host.poll_in s.pipe ≡ done (n, p)
        → Step s (record s { pipe = p; phase = taken n })
    polls :
        (n : ℕ)
        → s.phase ≡ taken n
        → Step s (record s {
          pipe = (poll_handles host s.pipe s.world).0;
          world = (poll_handles host s.pipe s.world).1;
          phase = polled n;
        })
    sweeps :
        (n : ℕ) (ignored : Bool) (t : Tables Object) (w : World)
        → s.phase ≡ polled n
        → update_handles host s.pipe.tables s.world ≡ done (ignored, (t, w))
        → Step s (record s {
          pipe = record s.pipe { tables = t };
          world = w;
          phase = swept (not ignored) n;
        })
    settles :
        (n : ℕ) (has_work : Bool)
        → s.phase ≡ swept has_work n
        → Step s (record s { pipe = settle has_work n s.pipe; phase = waiting })

  abbrev pub start : World → System Object World
  start world = record { pipe = initial; phase = waiting; callers = 0; world = world }

  pub data Reach (w : World) : System Object World → Type (ℓ ⊔ κ) where
    starts : Reach w (start w)
    later : {s t : System Object World} → Reach w s → Step s t → Reach w t

  -- A step of the worker, and not of a caller or of the world around it.
  unfoldable pub is_worker : {s t : System Object World} → Step s t → Bool
  is_worker (wakes phase ready goes_on) = true
  is_worker (stops phase ready closed) = true
  is_worker (takes n p phase took) = true
  is_worker (polls n phase) = true
  is_worker (sweeps n ignored t w phase swept_all) = true
  is_worker (settles n has_work phase) = true
  is_worker _ = false

  -- What the worker does alone, with no step of another between its own.
  pub data Alone (s : System Object World) : System Object World → Type (ℓ ⊔ κ) where
    rests : Alone s s
    then :
        {t u : System Object World}
        → Alone s t
        → (step : Step t u) → is_worker step ≡ true
        → Alone s u
