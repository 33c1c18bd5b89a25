-- ===== src/Networking/Local.antt =====
-- Source/networking.cpp: the local basic_socket of the queries, by the operations of basic_socket.cpp. No
-- other object has a part in it, so its store is one of its own; ::socket and ::close are parameters.
use impact_socket_set.Base.{ℕ, Bool, true, false, if◌then◌else◌, Option, none, some, Bytes}
use impact_socket_set.Base.Int.{ℤ, pos, negsuc}
use impact_socket_set.Failure.{returns, throws, Action}
use impact_socket_set.Socket.{Sockets, Info, no_sockets, release}
use impact_socket_set.Socket
use impact_socket_set.Delivery.{Kind, Handle}

-- ::socket gives none where it fails, and ::close tells whether it succeeds.
pub record Descriptors {ℓ} (World : Type ℓ) : Type ℓ where
  pub unset : Kind
  pub open_socket : Kind → World → Option ℕ × World
  pub close_descriptor : ℕ → World → Bool × World
  pub error_message : World → Bytes

abbrev pub Local : Type 0
Local = Sockets Kind

module _ {ℓ} {World : Type ℓ} (system : Descriptors World) where
  -- `basic_socket handle; handle = make_socket(..);`: object 0 is the handle and object 1 the result,
  -- which is moved from and destroyed.
  unfoldable pub assigned : Kind → Option ℕ → Bool × Local
  assigned kind answer =
      let (threw, made) =
        Socket.make_socket system.unset kind answer (Socket.construct system.unset no_sockets) in
      if threw then (true, Socket.destroy system.unset 0 true made) else (
        false,
        Socket.destroy system.unset 1 true (Socket.move_assign system.unset 0 1 true made).1,
      )

  unfoldable pub make_local : Kind → Action World Local
  make_local kind world =
      let (answer, after) = system.open_socket kind world in
      let (threw, store) = assigned kind answer in
      (if threw then throws (system.error_message after) else returns store, after)

  -- basic_socket::get of the handle
  abbrev pub descriptor : Local → ℤ
  descriptor = Socket.get system.unset 0

  abbrev pub handle : Local → Handle
  handle store = elim (Socket.pointer system.unset 0 store) [
    | none ↦ none
    | some cell ↦ some (Socket.info system.unset cell store)
  ]

  -- ::close of the descriptor, where there is one
  abbrev pub let_go : ℤ → World → Bool × World
  let_go (pos d) world = system.close_descriptor d world
  let_go (negsuc _) world = (false, world)

  -- The destructor: _M_dtor closes what the handle still has.
  unfoldable pub destroy_local : Local → World → World
  destroy_local store world = (let_go (descriptor store) world).1

  -- `handle.close();` and, where that throws, the destructor
  unfoldable pub close_local : Local → Action World (Unit {0})
  close_local store world =
      let (closes, after) = let_go (descriptor store) world in
      let (threw, left) = Socket.close system.unset 0 closes store in
      (if threw then throws (system.error_message after) else returns tt, destroy_local left after)
