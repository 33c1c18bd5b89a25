-- ===== src/Delivery/Catalog.antt =====
-- Source/basic_socket_delivery.cpp and Source/basic_socket_misc.cpp: their operations as data.
use impact_socket_set.Base.{ℕ, Bool, Bytes}
use impact_socket_set.Base.Int.{ℤ}
use impact_socket_set.Failure.{Action, pure, ◌>>◌}
use impact_socket_set.Delivery.{Handle, System, KeepAlive}
use impact_socket_set.Delivery.Operations.{
  bind_port, bind_text, bind_address, connect, listen, shutdown, group, send, sendto, recv,
  recvfrom, local_address, local_port, peer_address, peer_port, broadcast, multicast_ttl,
  reuse_address,
}
use impact_socket_set.Delivery.Keepalive.{keepalive}

-- An operation, for what holds of all of them.
pub data Operation : Type 0 where
  binds_port : ℕ → Operation
  binds_text : Bytes → ℕ → Operation
  binds_address : Bytes → Operation
  connects : ℕ → Bytes → Operation
  listens : ℤ → Operation
  shuts_down : ℕ → Operation
  groups : Bytes → ℕ → Operation
  keeps_alive : KeepAlive → Operation
  sends : Bytes → ℕ → Operation
  sends_to : Bytes → ℕ → Bytes → ℕ → Operation
  receives : ℕ → ℕ → Operation
  receives_from : ℕ → ℕ → Operation
  tells_address : Operation
  tells_port : Operation
  tells_peer_address : Operation
  tells_peer_port : Operation
  broadcasts : Bool → Operation
  sets_ttl : ℕ → Operation
  reuses_address : Bool → Operation

module _ {ℓ} {World : Type ℓ} (system : System World) where
  -- An operation, without its result.
  unfoldable pub operate : Operation → Handle → Action World (Unit {0})
  operate (binds_port port) h = bind_port system h port
  operate (binds_text address port) h = bind_text system h address port
  operate (binds_address address) h = bind_address system h address
  operate (connects port address) h = connect system h port address
  operate (listens backlog) h = listen system h backlog
  operate (shuts_down channel) h = shutdown system h channel
  operate (groups name method) h = group system h name method
  operate (keeps_alive options) h = keepalive system h options
  operate (sends buffer flags) h = send system h buffer flags >> pure tt
  operate (sends_to buffer port address flags) h =
      sendto system h buffer port address flags >> pure tt
  operate (receives count flags) h = recv system h count flags >> pure tt
  operate (receives_from count flags) h = recvfrom system h count flags >> pure tt
  operate tells_address h = local_address system h >> pure tt
  operate tells_port h = local_port system h >> pure tt
  operate tells_peer_address h = peer_address system h >> pure tt
  operate tells_peer_port h = peer_port system h >> pure tt
  operate (broadcasts enabled) h = broadcast system h enabled
  operate (sets_ttl ttl) h = multicast_ttl system h ttl
  operate (reuses_address enabled) h = reuse_address system h enabled
