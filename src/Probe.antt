-- ===== src/Probe.antt =====
-- Source/probe.cpp and Include/sockets/probe.h: the handles that `poll` watches.
-- `::poll` of the system is a parameter, which gives the array as it leaves it and its status.
pub mod Select
mod Tests
use impact_socket_set.Base.{ℕ, List, Option, none, some}
use impact_socket_set.Base.Int.{ℤ, pos, negsuc}

pub record PollHandle : Type 0 where
  pub socket : ℤ
  pub events : ℕ
  pub return_events : ℕ

abbrev pub poll_handle : PollHandle
poll_handle = record { socket = negsuc 0; events = 0; return_events = 0 }

abbrev pub SystemPoll {ℓ} : Type ℓ → Type ℓ
SystemPoll World = List PollHandle → ℤ → World → List PollHandle × (ℤ × World)

-- `none` stands for a null pointer to the handles.
unfoldable pub poll {ℓ} :
    {World : Type ℓ}
    → SystemPoll World
    → Option (List PollHandle)
    → ℤ
    → World
    → Option (List PollHandle) × (ℤ × World)
poll system none timeout world = (none, (pos 0, world))
poll system (some handles) timeout world =
    let (left, after) = system handles timeout world in (some left, after)
