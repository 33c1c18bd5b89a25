-- ===== src/Pipeline/Sweeps.antt =====
-- Source/async_pipeline.cpp, _M_update_handles: the loop by index against one pass over the handles.
use impact_socket_set.Base.{
  ℕ, suc, ◌+◌, Bool, true, false, if◌then◌else◌, none, some, List, [], ◌∷◌, ◌++◌, map, all_of,
  length, ◌≡◌, refl,
}
use impact_socket_set.Base.Int.{ℤ, pos, magnitude, negate}
use impact_socket_set.Base.Assoc.{Assoc, lookup, erase_key}
use impact_socket_set.Probe.{PollHandle}
use impact_socket_set.Pipeline.{continue, ignore, quit, Host, Sweep}

-- What a pass leaves: the handles that stay, each with whether it is ignored from now on.
pub record Pass {ℓ κ} (Object : Type ℓ) (World : Type κ) : Type (ℓ ⊔ κ) where
  pub kept : List (PollHandle × Bool)
  pub info : Assoc Object
  pub world : World

abbrev pub handles_of : List (PollHandle × Bool) → List PollHandle
handles_of = map (λ entry. entry.0)

abbrev pub all_ignored : List (PollHandle × Bool) → Bool
all_ignored = all_of (λ entry. entry.1)

abbrev pub count_ignored : List (PollHandle × Bool) → ℕ
count_ignored [] = 0
count_ignored (entry ∷ rest) = if entry.1 then suc (count_ignored rest) else count_ignored rest

-- A handle after its callback: the socket is written, and the events that came are cleared.
abbrev pub rearmed : ℤ → PollHandle → PollHandle
rearmed socket handle = record handle { socket = socket; return_events = 0 }

module _ {ℓ κ} {Object : Type ℓ} {World : Type κ} where
  abbrev pub with_kept : PollHandle × Bool → Pass Object World → Pass Object World
  with_kept entry p = record p { kept = entry ∷ p.kept }

  -- One call for each handle, in order: those that answer QUIT are left out with their objects.
  unfoldable pub pass :
      Host Object World → ℤ → List PollHandle → Assoc Object → World → Pass Object World
  pass host error [] info world = record { kept = []; info = info; world = world }
  pass host error (key ∷ rest) info world =
      let socket = magnitude key.socket in
      elim (lookup socket info) [
        | none ↦ pass host error rest info world
        | some object ↦
            let reply = host.async_callback object key error world in
            elim reply.option [
              | continue ↦
                  with_kept (rearmed (pos socket) reply.handle, false)
                    (pass host error rest info reply.world)
              | ignore ↦
                  with_kept (rearmed (negate socket) reply.handle, true)
                    (pass host error rest info reply.world)
              | quit ↦ pass host error rest (erase_key socket info) reply.world
            ]
      ]

  -- The loop between two of its rounds.
  abbrev pub between :
      List PollHandle → List PollHandle → ℕ → Assoc Object → World → Sweep Object World
  between front rest ignored info world = record {
    index = length front;
    ignored = ignored;
    tables = record { handles = front ++ rest; info = info };
    world = world;
  }

  abbrev pub finished : List PollHandle → ℕ → Pass Object World → Sweep Object World
  finished front ignored p = record {
    index = length (front ++ handles_of p.kept);
    ignored = ignored + count_ignored p.kept;
    tables = record { handles = front ++ handles_of p.kept; info = p.info };
    world = p.world;
  }

  -- The pass on its first handle, in each case of the switch.
  module _ (host : Host Object World) (error : ℤ) (key : PollHandle) (rest : List PollHandle)
      (info : Assoc Object) (world : World) (object : Object)
      (found : lookup (magnitude key.socket) info ≡ some object) where
    pub pass-continue :
        (host.async_callback object key error world).option ≡ continue
        → pass host error (key ∷ rest) info world ≡ (
            let reply = host.async_callback object key error world in
            with_kept
              (rearmed (pos (magnitude key.socket)) reply.handle, false)
              (pass host error rest info reply.world))
    unfolding pass
    pass-continue e = rw (found, e, pass) refl

    pub pass-ignore :
        (host.async_callback object key error world).option ≡ ignore
        → pass host error (key ∷ rest) info world ≡ (
            let reply = host.async_callback object key error world in
            with_kept
              (rearmed (negate (magnitude key.socket)) reply.handle, true)
              (pass host error rest info reply.world))
    unfolding pass
    pass-ignore e = rw (found, e, pass) refl

    pub pass-quit :
        (host.async_callback object key error world).option ≡ quit
        → pass host error (key ∷ rest) info world
          ≡ pass host error rest
              (erase_key (magnitude key.socket) info)
              (host.async_callback object key error world).world
    unfolding pass
    pass-quit e = rw (found, e, pass) refl
