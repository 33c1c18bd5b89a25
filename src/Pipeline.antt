-- ===== src/Pipeline.antt =====
-- Source/async_pipeline.cpp and Include/sockets/async_pipeline.h: the thread that polls sockets and
-- calls their objects. This file has the state and the operations, each of them the body of one
-- critical section or one phase of the worker; Pipeline/Steps.antt interleaves them.
-- What the callbacks read and write is a `World`; the callbacks, `::poll`, `error_code` and the
-- value of POLLIN are the parameter `Host`. An int that threads count in is its 32-bit pattern.
pub mod Sweeps
pub mod Rounds
pub mod Agreement
pub mod Kept
pub mod Linked
pub mod Registry
pub mod Steps
pub mod Same
pub mod Counted
pub mod Invariant
pub mod Wakeup
mod Tests
use impact_socket_set.Base.{
  ℕ, zero, suc, ◌+◌, ◌-◌, ◌%◌, ◌^◌, Bool, true, false, not, ◌||◌, ◌&&◌, ltb, ◌==◌, if◌then◌else◌,
  Option, none, some, List, [], ◌∷◌, ◌++◌, length, get_or, set_at, erase_at,
}
use impact_socket_set.Base.Int.{ℤ, pos, negsuc, is_nonneg, magnitude, negate}
use impact_socket_set.Base.Assoc.{Assoc, lookup, assign, erase_key}
use impact_socket_set.Probe.{PollHandle, poll_handle, SystemPoll, poll}

pub data AsyncOption : Type 0 where
  continue ignore quit : AsyncOption

-- What a callback leaves: its verdict, the handle it was given by pointer, and the world.
pub record Reply {ℓ} (World : Type ℓ) : Type ℓ where
  pub option : AsyncOption
  pub handle : PollHandle
  pub world : World

abbrev pub Callback {ℓ} : Type ℓ → Type ℓ
Callback World = PollHandle → ℤ → World → Reply World

-- async_functor::async_callback: `none` is an empty std::function.
unfoldable pub async_functor {ℓ} : {World : Type ℓ} → Option (Callback World) → Callback World
async_functor none handle error world = record { option = quit; handle = handle; world = world }
async_functor (some callback) handle error world = callback handle error world

pub record Host {ℓ κ} (Object : Type ℓ) (World : Type κ) : Type (ℓ ⊔ κ) where
  pub poll_in : ℕ
  pub system_poll : SystemPoll World
  pub error_code : World → ℤ
  pub async_callback : Object → Callback World

-- m_work_handles_ and m_work_info_, which only the worker touches
pub record Tables {ℓ} (Object : Type ℓ) : Type ℓ where
  pub handles : List PollHandle
  pub info : Assoc Object

pub record Pipeline {ℓ} (Object : Type ℓ) : Type ℓ where
  pub tables : Tables Object
  pub pending : List (ℕ × Object)
  pub removed : List ℕ
  pub granularity : ℕ
  pub closing : Bool
  pub has_work : Bool
  pub thread_pending : ℕ

-- How a piece of the worker's code ends: the last two are the use of an iterator to a missing key,
-- and the end of the fuel.
pub data Outcome {ℓ} (A : Type ℓ) : Type ℓ where
  done : A → Outcome A
  undefined : Outcome A
  out_of_fuel : Outcome A

infixl 5 ◌>>=◌
abbrev pub ◌>>=◌ {ℓ κ} : {A : Type ℓ} {B : Type κ} → Outcome A → (A → Outcome B) → Outcome B
done a >>= f = f a
undefined >>= f = undefined
out_of_fuel >>= f = out_of_fuel

abbrev default_granularity : ℕ
default_granularity = 50

-- std::find_if
abbrev pub watches : ℕ → List PollHandle → Bool
watches socket [] = false
watches socket (handle ∷ rest) =
    if magnitude handle.socket == socket then true else watches socket rest

-- m_work_handles_.erase(handle), of the first one that is found
abbrev pub erase_handle : ℕ → List PollHandle → List PollHandle
erase_handle socket [] = []
erase_handle socket (handle ∷ rest) =
    if magnitude handle.socket == socket then rest else handle ∷ erase_handle socket rest

-- m_thread_pending_ > 0
abbrev pub counts_work : ℕ → Bool
counts_work pattern = ltb 0 pattern && ltb pattern (2 ^ 31)

module _ {ℓ} {Object : Type ℓ} where
  -- async_pipeline::async_pipeline
  unfoldable pub initial : Pipeline Object
  initial = record {
    tables = record { handles = []; info = [] };
    pending = [];
    removed = [];
    granularity = default_granularity;
    closing = false;
    has_work = false;
    thread_pending = 0;
  }

  unfoldable pub set_granularity : ℤ → Pipeline Object → Pipeline Object
  set_granularity (pos milliseconds) p = record p { granularity = milliseconds }
  set_granularity (negsuc _) p = record p { granularity = default_granularity }

  -- Up to the end of the lock of add_object; `none` is the exception.
  unfoldable pub add_object : ℤ → Object → Pipeline Object → Option (Pipeline Object)
  add_object (negsuc _) object p = none
  add_object (pos socket) object p =
      some (record p { pending = p.pending ++ ((socket, object) ∷ []) })

  -- Up to the end of the lock of remove_object; `none` is the exception.
  unfoldable pub remove_object : ℤ → Pipeline Object → Option (Pipeline Object)
  remove_object (negsuc _) p = none
  remove_object (pos socket) p = some (record p { removed = p.removed ++ (socket ∷ []) })

  unfoldable pub notify_pending : ℕ → Pipeline Object → Pipeline Object
  notify_pending count p = record p { thread_pending = (p.thread_pending + count) % 2 ^ 32 }

  unfoldable pub notify : Pipeline Object → Pipeline Object
  notify p = record p { has_work = true }

  -- _M_copy_pending_to_queue, for one token
  unfoldable pub copy_token : ℕ → ℕ × Object → Tables Object → Tables Object
  copy_token events (socket, object) t = elim (lookup socket t.info) [
    | none ↦ record {
      handles =
          t.handles ++ (record { socket = pos socket; events = events; return_events = 0 } ∷ []);
      info = assign socket object t.info;
    }
    | some _ ↦ record t { info = assign socket object t.info }
  ]

  unfoldable pub copy_pending : ℕ → List (ℕ × Object) → Tables Object → Tables Object
  copy_pending events [] t = t
  copy_pending events (token ∷ rest) t = copy_pending events rest (copy_token events token t)

  -- _M_remove_pending_from_queue, for one token
  unfoldable pub remove_token : ℕ → Tables Object → Outcome (Tables Object)
  remove_token socket t =
      if watches socket t.handles
      then elim (lookup socket t.info) [
        | none ↦ undefined
        | some _ ↦
            done
              (record { handles = erase_handle socket t.handles; info = erase_key socket t.info })
      ]
      else done t

  unfoldable pub remove_pending : List ℕ → Tables Object → Outcome (Tables Object)
  remove_pending [] t = done t
  remove_pending (token ∷ rest) t = remove_token token t >>= remove_pending rest

  -- The locked scope of _M_dowork, and `pending_satisfied`.
  unfoldable pub take_work : ℕ → Pipeline Object → Outcome (ℕ × Pipeline Object)
  take_work events p = do
    tables ← remove_pending p.removed (copy_pending events p.pending p.tables)
    done (
      (length p.pending + length p.removed) % 2 ^ 32,
      record p { tables = tables; pending = []; removed = [] },
    )

  -- The last locked scope of _M_dowork.
  unfoldable pub settle : Bool → ℕ → Pipeline Object → Pipeline Object
  settle has_work satisfied p = record p {
    has_work = has_work;
    thread_pending = (p.thread_pending + (2 ^ 32 - satisfied)) % 2 ^ 32;
  }

  -- The predicate of the condition variable in _M_begin.
  unfoldable pub is_ready : Pipeline Object → Bool
  is_ready p = p.closing || (p.has_work || counts_work p.thread_pending)

  -- _M_end, before the join
  unfoldable pub close : Pipeline Object → Pipeline Object
  close p = record p { closing = true }

-- The locals of _M_update_handles.
pub record Sweep {ℓ κ} (Object : Type ℓ) (World : Type κ) : Type (ℓ ⊔ κ) where
  pub index : ℕ
  pub ignored : ℕ
  pub tables : Tables Object
  pub world : World

abbrev pub count_negative : ℤ → ℕ → ℕ
count_negative socket ignored = if is_nonneg socket then ignored else suc ignored

-- if (socket == 0) ignored++
abbrev pub count_zero : ℕ → ℕ → ℕ
count_zero socket ignored = if socket == 0 then suc ignored else ignored

module _ {ℓ κ} {Object : Type ℓ} {World : Type κ} (host : Host Object World) where
  -- The case CONTINUE, into which IGNORE falls, and i++.
  unfoldable pub keep : ℤ → ℕ → Reply World → Sweep Object World → Sweep Object World
  keep socket ignored reply s = record {
    index = (s.index + 1) % 2 ^ 64;
    ignored = count_negative socket ignored;
    tables = record s.tables {
      handles =
          set_at s.index (record reply.handle { return_events = 0; socket = socket })
            s.tables.handles;
    };
    world = reply.world;
  }

  -- The case QUIT, i-- and i++.
  unfoldable pub drop_object : ℕ → Reply World → Sweep Object World → Sweep Object World
  drop_object socket reply s = record {
    index = ((s.index + (2 ^ 64 - 1)) % 2 ^ 64 + 1) % 2 ^ 64;
    ignored = s.ignored;
    tables = record {
      handles = erase_at s.index s.tables.handles;
      info = erase_key socket s.tables.info;
    };
    world = reply.world;
  }

  abbrev pub dispatch : ℕ → Reply World → Sweep Object World → Sweep Object World
  dispatch socket reply s = elim reply.option [
    | ignore ↦ keep (negate socket) (count_zero socket s.ignored) reply s
    | continue ↦ keep (pos socket) s.ignored reply s
    | quit ↦ drop_object socket reply s
  ]

  -- The body of the loop of _M_update_handles.
  unfoldable pub sweep_step : ℤ → Sweep Object World → Outcome (Sweep Object World)
  sweep_step error s =
      let key = get_or s.tables.handles s.index poll_handle in
      let socket = magnitude key.socket in
      elim (lookup socket s.tables.info) [
        | none ↦ undefined
        | some object ↦ done (dispatch socket (host.async_callback object key error s.world) s)
      ]

  unfoldable pub sweep : ℕ → ℤ → Sweep Object World → Outcome (Sweep Object World)
  sweep zero error s = out_of_fuel
  sweep (suc fuel) error s =
      if ltb s.index (length s.tables.handles)
      then sweep_step error s >>= sweep fuel error
      else done s

  -- _M_update_handles: whether every handle is ignored, the tables and the world.
  unfoldable pub update_handles : Tables Object → World → Outcome (Bool × (Tables Object × World))
  update_handles t world = do
    s ←
        sweep (suc (length t.handles)) (host.error_code world)
          (record { index = 0; ignored = 0; tables = t; world = world })
    done (s.ignored == length s.tables.handles, (s.tables, s.world))

  -- poll(&m_work_handles_, (int)m_poll_granularity_)
  unfoldable pub poll_handles : Pipeline Object → World → Pipeline Object × World
  poll_handles p world =
      let (left, (status, woken)) =
        poll host.system_poll (some p.tables.handles) (pos p.granularity) world in
      elim left [
        | none ↦ (p, woken)
        | some handles ↦ (record p { tables = record p.tables { handles = handles } }, woken)
      ]

  unfoldable pub dowork : Pipeline Object → World → Outcome (Pipeline Object × World)
  dowork p world = do
    (satisfied, taken) ← take_work host.poll_in p
    let (polled, woken) = poll_handles taken world
    (all_ignored, (tables, left)) ← update_handles polled.tables woken
    done (settle (not all_ignored) satisfied (record polled { tables = tables }), left)
