-- ===== src/Delivery/Moved.antt =====
-- Source/basic_socket_delivery.cpp and Source/basic_socket_misc.cpp on a socket that was moved.
use impact_socket_set.Base.{none, ◌≡◌, refl}
use impact_socket_set.Uri.Chars.{codes}
use impact_socket_set.Failure.{throws}
use impact_socket_set.Delivery.{System}
use impact_socket_set.Delivery.Operations.{
  bind_port, bind_text, bind_address, connect, listen, shutdown, group, send, sendto, recv,
  recvfrom, local_address, local_port, peer_address, peer_port, broadcast, multicast_ttl,
  reuse_address,
}
use impact_socket_set.Delivery.Keepalive.{keepalive}
use impact_socket_set.Delivery.Catalog.{
  Operation, binds_port, binds_text, binds_address, connects, listens, shuts_down, groups,
  keeps_alive, sends, sends_to, receives, receives_from, tells_address, tells_port,
  tells_peer_address, tells_peer_port, broadcasts, sets_ttl, reuses_address, operate,
}

-- Every operation on a socket that was moved throws "Socket moved", and calls nothing of the system.
operate-moved {ℓ} :
    {World : Type ℓ} (system : System World) (operation : Operation) (world : World)
    → operate system operation none world ≡ (throws (codes "Socket moved"), world)
unfolding operate bind_port bind_text bind_address connect listen shutdown group keepalive send
    sendto recv recvfrom local_address local_port peer_address peer_port broadcast multicast_ttl
    reuse_address
operate-moved system (binds_port p) world = refl
operate-moved system (binds_text a p) world = refl
operate-moved system (binds_address a) world = refl
operate-moved system (connects p a) world = refl
operate-moved system (listens b) world = refl
operate-moved system (shuts_down c) world = refl
operate-moved system (groups n m) world = refl
operate-moved system (keeps_alive o) world = refl
operate-moved system (sends b f) world = refl
operate-moved system (sends_to b p a f) world = refl
operate-moved system (receives c f) world = refl
operate-moved system (receives_from c f) world = refl
operate-moved system tells_address world = refl
operate-moved system tells_port world = refl
operate-moved system tells_peer_address world = refl
operate-moved system tells_peer_port world = refl
operate-moved system (broadcasts e) world = refl
operate-moved system (sets_ttl t) world = refl
operate-moved system (reuses_address e) world = refl
