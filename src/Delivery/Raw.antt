-- ===== src/Delivery/Raw.antt =====
-- Source/raw_socket.cpp on Linux: send, recv and attach. The socket of a raw_socket is used by its
-- descriptor, which is -1 where it has no information.
use impact_socket_set.Base.{
  zero, suc, none, some, [], ◌∷◌, ◌++◌, Bytes, take, replicate, length, if◌then◌else◌, ◌==◌, ◌-◌,
}
use impact_socket_set.Base.Int.{ℤ, pos, negsuc}
use impact_socket_set.Failure.{Action, pure, ◌>>=◌, ◌>>◌}
use impact_socket_set.Delivery.{
  Handle, bind_to, send_bytes, receive, interface_index, System, descriptor_of,
}
use impact_socket_set.Delivery.Operations.{call}

-- basic_socket::get
abbrev pub get : Handle → ℤ
get none = negsuc 0
get (some info) = descriptor_of info

pub record RawSocket : Type 0 where
  pub socket : Handle
  pub interface_name : Bytes

module _ {ℓ} {World : Type ℓ} (system : System World) where
  -- The length comes with the buffer.
  unfoldable pub raw_send : Handle → Bytes → ℤ → Action World ℤ
  raw_send handle buffer (negsuc _) = pure (pos 0)
  raw_send handle buffer (pos zero) = pure (pos 0)
  raw_send handle buffer (pos (suc n)) = do
    reply ← call system (send_bytes (get handle) (take (suc n) buffer) 0)
    pure reply.status

  unfoldable pub raw_recv : Handle → ℤ → Action World (ℤ × Bytes)
  raw_recv handle (negsuc _) = pure (pos 0, [])
  raw_recv handle (pos zero) = pure (pos 0, [])
  raw_recv handle (pos (suc n)) = do
    reply ← call system (receive (get handle) (suc n) 0)
    pure (reply.status, reply.bytes)

  -- c_str() as strncpy reads it: up to the first NUL
  unfoldable pub c_text : Bytes → Bytes
  c_text [] = []
  c_text (c ∷ rest) = let later = c_text rest in if c == 0 then [] else c ∷ later

  -- ifr_name: at most 15 characters of the name, and zeros behind them
  abbrev pub request_name : Bytes → Bytes
  request_name name = let kept = take 15 (c_text name) in kept ++ replicate (16 - length kept) 0

  -- A sockaddr_ll for ETH_P_ALL, which is 3.
  abbrev pub link_address : Bytes → Bytes
  link_address index =
      system.family_bytes system.names.packet ++ (0 ∷ 3 ∷ take 4 index ++ replicate 12 0)

  unfoldable pub attach_to : Handle → Bytes → Action World (Unit {0})
  attach_to handle name = do
    reply ← call system (interface_index (get handle) (request_name name))
    call system (bind_to (get handle) (link_address reply.address) 20)
    pure tt

  -- The name is stored before anything can throw.
  unfoldable pub attach : RawSocket → Bytes → RawSocket × Action World (Unit {0})
  attach raw name =
      (record { socket = raw.socket; interface_name = name }, attach_to raw.socket name)
