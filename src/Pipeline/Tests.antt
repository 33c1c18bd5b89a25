-- ===== src/Pipeline/Tests.antt =====
-- The pipeline run on small inputs: objects that answer CONTINUE, IGNORE or QUIT, and a world that
-- counts the calls.
use impact_socket_set.Base.{ℕ, suc, ◌≤◌, Bool, true, false, none, [], ◌∷◌, ◌≡◌, refl, arith}
use impact_socket_set.Base.Int.{ℤ, pos, negsuc}
use impact_socket_set.Probe.{PollHandle}
use impact_socket_set.Pipeline.{
  AsyncOption, continue, ignore, quit, Callback, Host, Tables, Pipeline, done, initial,
  async_functor, set_granularity, add_object, notify_pending, notify, take_work, settle, is_ready,
  keep, drop_object, sweep_step, sweep, update_handles, dowork,
}
use impact_socket_set.Pipeline.Linked.{IsDistinct, IsLinked}
use impact_socket_set.Pipeline.Sweeps.{pass, handles_of, all_ignored}
use impact_socket_set.Pipeline.Agreement.{update_handles-pass}
use impact_socket_set.Pipeline.Registry.{registry, register_all, forget_all, take_work-refines}
use impact_socket_set.Pipeline.Steps.{
  Alone, waiting, woken, System, adds, counts, wakes, Reach, starts, later,
}
use impact_socket_set.Pipeline.Wakeup.{Reach-defined, Reach-no_lost_request, Reach-round}

abbrev answers : AsyncOption → Callback ℕ
answers option handle error calls = record { option = option; handle = handle; world = suc calls }

abbrev host : Host AsyncOption ℕ
host = record {
  poll_in = 1;
  system_poll = λ handles timeout world. (handles, (pos 0, world));
  error_code = λ world. pos 0;
  async_callback = answers;
}

abbrev handle : ℤ → PollHandle
handle socket = record { socket = socket; events = 1; return_events = 0 }

abbrev two_objects : Tables AsyncOption
two_objects = record {
  handles = handle (pos 4) ∷ handle (pos 7) ∷ [];
  info = (4, quit) ∷ (7, ignore) ∷ [];
}

two_objects-IsLinked : IsLinked two_objects
unfolding IsDistinct
two_objects-IsLinked = record { distinct = (refl, (refl, tt)); matched = λ socket. refl }

-- QUIT takes the first object out, IGNORE turns the sign of the second, and nothing is left to do.
update_handles_run :
    update_handles host two_objects 0
    ≡ done (true, (record { handles = handle (negsuc 6) ∷ []; info = (7, ignore) ∷ [] }, 2))
unfolding update_handles sweep sweep_step keep drop_object
update_handles_run = refl

-- Socket 0 has no negative, and is counted as ignored all the same.
update_handles_zero :
    update_handles host (record { handles = handle (pos 0) ∷ []; info = (0, ignore) ∷ [] }) 0
    ≡ done (true, (record { handles = handle (pos 0) ∷ []; info = (0, ignore) ∷ [] }, 1))
unfolding update_handles sweep sweep_step keep
update_handles_zero = refl

-- An empty std::function answers QUIT.
async_functor_empty : (async_functor {World = ℕ} none (handle (pos 1)) (pos 0) 5).option ≡ quit
unfolding async_functor
async_functor_empty = refl

granularity_negative :
    (set_granularity
      (negsuc 0)
      (set_granularity (pos 7) (initial {Object = AsyncOption}))).granularity
    ≡ 50
unfolding set_granularity initial
granularity_negative = refl

-- A `notify` that falls into a round is lost: the end of the round writes over its flag.
notify_overwritten :
    (is_ready (settle false 0 (notify (initial {Object = AsyncOption}))) ≡ false)
    × (is_ready (notify (settle false 0 (initial {Object = AsyncOption}))) ≡ true)
unfolding is_ready settle notify initial
notify_overwritten = (refl, refl)

update_handles-pass_example : update_handles host two_objects 0 ≡ (
    let p = pass host (pos 0) two_objects.handles two_objects.info 0 in
    done (all_ignored p.kept, (record { handles = handles_of p.kept; info = p.info }, p.world)))
update_handles-pass_example =
    update_handles-pass host two_objects 0 two_objects-IsLinked (omega arith)

abbrev queued : Pipeline AsyncOption
queued = record {
  tables = two_objects;
  pending = (7, continue) ∷ (9, continue) ∷ [];
  removed = 4 ∷ [];
  granularity = 50;
  closing = false;
  has_work = true;
  thread_pending = 3;
}

take_work-refines_example :
    (u : Tables AsyncOption) × (take_work 1 queued
      ≡ done (3, record queued { tables = u; pending = []; removed = [] }))
    × IsLinked u
    × (registry u
        ≡ forget_all
            (4 ∷ [])
            (register_all ((7, continue) ∷ (9, continue) ∷ []) (registry two_objects)))
take_work-refines_example = take_work-refines 1 queued two_objects-IsLinked

-- One object added on socket 4, before its call has counted it.
abbrev one_added : System AsyncOption ℕ
one_added = record {
  pipe = record {
    tables = record { handles = []; info = [] };
    pending = (4, ignore) ∷ [];
    removed = [];
    granularity = 50;
    closing = false;
    has_work = false;
    thread_pending = 0;
  };
  phase = waiting;
  callers = 1;
  world = 0;
}

abbrev one_counted : System AsyncOption ℕ
one_counted = record one_added {
  pipe = record one_added.pipe { thread_pending = 1 };
  callers = 0;
  phase = woken;
}

one_added-Reach : Reach host 0 one_added
unfolding initial add_object
one_added-Reach = later starts (adds (pos 4) ignore one_added.pipe (omega arith) refl)

one_counted-Reach : Reach host 0 one_counted
unfolding notify_pending is_ready
one_counted-Reach = later (later one_added-Reach (counts 0 refl)) (wakes refl refl refl)

Reach-defined_example :
    IsLinked one_counted.pipe.tables
    × ((r : ℕ × Pipeline AsyncOption) × (take_work 1 one_counted.pipe ≡ done r))
    × ((r : Bool × (Tables AsyncOption × ℕ)) × (update_handles host one_counted.pipe.tables 0
          ≡ done r))
Reach-defined_example = Reach-defined host (λ handles timeout world. refl) one_counted-Reach

Reach-no_lost_request_example : 1 ≤ 1
unfolding is_ready
Reach-no_lost_request_example =
    Reach-no_lost_request host (λ handles timeout world. refl) one_added-Reach refl refl
      (omega arith)

Reach-round_example :
    (t : System AsyncOption ℕ) × Alone host one_counted t
    × Reach host 0 t
    × (dowork host one_counted.pipe 0 ≡ done (t.pipe, t.world))
    × (t.phase ≡ waiting)
    × (t.pipe.pending ≡ [])
    × (t.pipe.removed ≡ [])
    × IsLinked t.pipe.tables
Reach-round_example = Reach-round host (λ handles timeout world. refl) one_counted-Reach refl
