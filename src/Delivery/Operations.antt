-- ===== src/Delivery/Operations.antt =====
-- Source/basic_socket_delivery.cpp, Source/basic_socket_misc.cpp and fill_address of
-- Source/generic.cpp: one definition for each operation.
use impact_socket_set.Base.{
  ℕ, ◌+◌, ◌*◌, Bool, ◌==◌, if◌then◌else◌, Option, none, some, ◌++◌, Bytes, get_or, take, drop,
  replicate,
}
use impact_socket_set.Base.Int.{ℤ, pos, ==ℤ}
use impact_socket_set.Uri.Chars.{codes}
use impact_socket_set.Uri.Print.{to_string}
use impact_socket_set.Failure.{throws, Action, pure, throw, lift, ◌>>=◌, ◌>>◌}
use impact_socket_set.Delivery.{
  Kind, Handle, int_value, char_value, request, SystemCall, bind_to, connect_to, listen_on,
  shut_down, set_option, send_bytes, send_bytes_to, receive, receive_from, socket_name, peer_name,
  resolve, free_list, Reply, System, port_bytes, is_error, descriptor_of, int_of,
}

module _ {ℓ} {World : Type ℓ} (system : System World) where
  -- throw impact_error(internal::error_message())
  abbrev pub fail : {A : Type 0} → Action World A
  fail world = (throws (system.error_message world), world)

  -- ASSERT(status != SOCKET_ERROR)
  abbrev pub checked : Reply → Action World Reply
  checked reply = if is_error reply.status then fail else pure reply

  abbrev pub call : SystemCall → Action World Reply
  call c = lift (system.perform c) >>= checked

  -- ASSERT_MOVED
  abbrev pub on_socket : {A : Type 0} → Handle → (ℤ → Kind → Action World A) → Action World A
  on_socket none operation = throw (codes "Socket moved")
  on_socket (some info) operation = operation (descriptor_of info) info.kind

  -- fill_address: the first of the addresses that the system finds, and its size. Where that is of
  -- another family the list is not given back.
  abbrev pub on_found : Reply → Action World (Bytes × ℕ)
  on_found reply =
      if ==ℤ reply.status system.names.eai_system
      then fail
      else if ==ℤ reply.status (pos 0)
      then (if reply.family == system.names.inet
          then lift (system.perform free_list) >> pure (take 16 reply.address, 16)
          else if reply.family == system.names.inet6
          then lift (system.perform free_list) >> pure (take 28 reply.address, 28)
          else throw (codes "Unsupported domain"))
      else throw (system.gai_strerror reply.status)

  unfoldable pub fill_address : Kind → Bytes → ℕ → Action World (Bytes × ℕ)
  fill_address kind address port =
      lift (system.perform (resolve kind address (to_string (pos port)))) >>= on_found

  -- A sockaddr_in of all the local addresses: INADDR_ANY is zero.
  abbrev pub any_address : ℕ → Bytes
  any_address port = system.family_bytes system.names.inet ++ (port_bytes port ++ replicate 12 0)

  unfoldable pub bind_port : Handle → ℕ → Action World (Unit {0})
  bind_port handle port =
      on_socket handle λ d kind. call (bind_to d (any_address port) 16) >> pure tt

  unfoldable pub bind_text : Handle → Bytes → ℕ → Action World (Unit {0})
  bind_text handle address port =
      on_socket handle λ d kind. do
        found ← fill_address kind address port
        call (bind_to d found.0 found.1)
        pure tt

  -- sizeof(__address) is that of a sockaddr, whatever the address is.
  unfoldable pub bind_address : Handle → Bytes → Action World (Unit {0})
  bind_address handle address = on_socket handle λ d kind. call (bind_to d address 16) >> pure tt

  unfoldable pub connect : Handle → ℕ → Bytes → Action World (Unit {0})
  connect handle port address = on_socket handle λ d kind. do
    found ← fill_address kind address port
    call (connect_to d found.0 found.1)
    pure tt

  unfoldable pub listen : Handle → ℤ → Action World (Unit {0})
  listen handle backlog = on_socket handle λ d kind. call (listen_on d backlog) >> pure tt

  unfoldable pub shutdown : Handle → ℕ → Action World (Unit {0})
  shutdown handle channel = on_socket handle λ d kind. call (shut_down d channel) >> pure tt

  -- An ip_mreq: the group's address, and INADDR_ANY for the interface.
  unfoldable pub group : Handle → Bytes → ℕ → Action World (Unit {0})
  group handle name method = on_socket handle λ d kind. do
    call (
        set_option d system.names.ipproto_ip method
          (request (system.inet_addr name ++ replicate 4 0)))
    pure tt

  unfoldable pub send : Handle → Bytes → ℕ → Action World ℤ
  send handle buffer flags =
      on_socket handle λ d kind. do reply ← call (send_bytes d buffer flags); pure reply.status

  unfoldable pub sendto : Handle → Bytes → ℕ → Bytes → ℕ → Action World ℤ
  sendto handle buffer port address flags = on_socket handle λ d kind. do
    found ← fill_address kind address port
    reply ← call (send_bytes_to d buffer flags found.0 found.1)
    pure reply.status

  unfoldable pub recv : Handle → ℕ → ℕ → Action World (ℤ × Bytes)
  recv handle count flags =
      on_socket handle
        λ d kind. do reply ← call (receive d count flags); pure (reply.status, reply.bytes)

  -- A sockaddr_in as the system leaves it.
  abbrev pub structure : Reply → Bytes
  structure reply = take 16 (reply.address ++ replicate 16 system.unwritten)

  abbrev pub port_in : Bytes → ℕ
  port_in bytes = 256 * get_or bytes 2 0 + get_or bytes 3 0

  abbrev pub text_in : Bytes → Bytes
  text_in bytes = system.inet_ntoa (take 4 (drop 4 bytes))

  unfoldable pub recvfrom : Handle → ℕ → ℕ → Action World (ℤ × Bytes × ℕ × Bytes)
  recvfrom handle count flags = on_socket handle λ d kind. do
    reply ← call (receive_from d count flags 16)
    pure (reply.status, reply.bytes, port_in (structure reply), text_in (structure reply))

  unfoldable pub local_address : Handle → Action World Bytes
  local_address handle =
      on_socket handle
        λ d kind. do reply ← call (socket_name d 16); pure (text_in (structure reply))

  unfoldable pub local_port : Handle → Action World ℕ
  local_port handle =
      on_socket handle
        λ d kind. do reply ← call (socket_name d 16); pure (port_in (structure reply))

  unfoldable pub peer_address : Handle → Action World Bytes
  peer_address handle =
      on_socket handle λ d kind. do reply ← call (peer_name d 16); pure (text_in (structure reply))

  unfoldable pub peer_port : Handle → Action World ℕ
  peer_port handle =
      on_socket handle λ d kind. do reply ← call (peer_name d 16); pure (port_in (structure reply))

  unfoldable pub broadcast : Handle → Bool → Action World (Unit {0})
  broadcast handle enabled = on_socket handle λ d kind. do
    call (
        set_option d system.names.sol_socket system.names.so_broadcast (int_value (int_of enabled)))
    pure tt

  unfoldable pub multicast_ttl : Handle → ℕ → Action World (Unit {0})
  multicast_ttl handle ttl = on_socket handle λ d kind. do
    call (set_option d system.names.ipproto_ip system.names.ip_multicast_ttl (char_value ttl))
    pure tt

  -- SO_REUSEPORT where the system has it
  abbrev pub reuse_port : ℤ → Bool → Option ℕ → Action World (Unit {0})
  reuse_port d enabled none = pure tt
  reuse_port d enabled (some option) = do
    call (set_option d system.names.sol_socket option (int_value (int_of enabled)))
    pure tt

  unfoldable pub reuse_address : Handle → Bool → Action World (Unit {0})
  reuse_address handle enabled = on_socket handle λ d kind. do
    call (
        set_option d system.names.sol_socket system.names.so_reuseaddr (int_value (int_of enabled)))
    reuse_port d enabled system.names.so_reuseport
