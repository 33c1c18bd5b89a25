-- ===== src/Delivery.antt =====
-- Source/basic_socket_delivery.cpp, Source/basic_socket_misc.cpp and fill_address of
-- Source/generic.cpp: the operations of a socket that the system carries out.
-- The system is a parameter: it takes a `SystemCall` and gives a `Reply`. The memory that a call of
-- the system leaves unwritten is any byte. A moved socket has no information, and is none here.
mod Tests
pub mod Operations
pub mod Keepalive
pub mod Catalog
pub mod Raw
pub mod Moved
pub mod Lists
pub mod Ports
pub mod Options
pub mod Freed
use impact_socket_set.Base.{
  ℕ, ◌+◌, ◌-◌, ◌*◌, ◌/◌, ◌%◌, Bool, true, false, ◌==◌, ◌&&◌, if◌then◌else◌, Option, none, some,
  List, [], ◌∷◌, ◌++◌, Bytes, length, get_or, take, drop, replicate,
}
use impact_socket_set.Base.Int.{ℤ, pos, negsuc, ==ℤ}
use impact_socket_set.Uri.Chars.{codes}
use impact_socket_set.Uri.Print.{to_string}
use impact_socket_set.Failure.{Result, returns, throws, Action, pure, throw, lift, ◌>>=◌, ◌>>◌}
use impact_socket_set.Socket.{Info}

-- address_family, socket_type and internet_protocol
pub record Kind : Type 0 where
  pub domain : ℕ
  pub type : ℕ
  pub protocol : ℕ

-- m_info_ of a basic_socket
abbrev pub Handle : Type 0
Handle = Option (Info Kind)

-- What setsockopt reads: an int, an unsigned char, or the bytes of an ip_mreq.
pub data Value : Type 0 where
  int_value : ℤ → Value
  char_value : ℕ → Value
  request : Bytes → Value

-- The calls, each with its descriptor; an address comes with the size that is told to the system.
pub data SystemCall : Type 0 where
  bind_to : ℤ → Bytes → ℕ → SystemCall
  connect_to : ℤ → Bytes → ℕ → SystemCall
  listen_on : ℤ → ℤ → SystemCall
  shut_down : ℤ → ℕ → SystemCall
  set_option : ℤ → ℕ → ℕ → Value → SystemCall
  send_bytes : ℤ → Bytes → ℕ → SystemCall
  send_bytes_to : ℤ → Bytes → ℕ → Bytes → ℕ → SystemCall
  receive : ℤ → ℕ → ℕ → SystemCall
  receive_from : ℤ → ℕ → ℕ → ℕ → SystemCall
  socket_name : ℤ → ℕ → SystemCall
  peer_name : ℤ → ℕ → SystemCall
  resolve : Kind → Bytes → Bytes → SystemCall
  free_list : SystemCall
  interface_index : ℤ → Bytes → SystemCall

-- The status of a call, the bytes that it has received, and the address that it has given. Of a
-- list of addresses it is the first, with its family, and of an interface the bytes of its index.
pub record Reply : Type 0 where
  pub status : ℤ
  pub bytes : Bytes
  pub family : ℕ
  pub address : Bytes

-- The numbers of the system's headers.
pub record Names : Type 0 where
  pub inet : ℕ
  pub inet6 : ℕ
  pub packet : ℕ
  pub eai_system : ℤ
  pub sol_socket : ℕ
  pub ipproto_ip : ℕ
  pub ipproto_tcp : ℕ
  pub so_keepalive : ℕ
  pub tcp_keepidle : ℕ
  pub tcp_keepintvl : ℕ
  pub tcp_keepcnt : ℕ
  pub so_broadcast : ℕ
  pub ip_multicast_ttl : ℕ
  pub so_reuseaddr : ℕ
  pub so_reuseport : Option ℕ

pub record System {ℓ} (World : Type ℓ) : Type ℓ where
  pub names : Names
  pub perform : SystemCall → World → Reply × World
  pub error_message : World → Bytes
  pub gai_strerror : ℤ → Bytes
  pub inet_ntoa : Bytes → Bytes
  pub inet_addr : Bytes → Bytes
  pub family_bytes : ℕ → Bytes
  pub unwritten : ℕ

-- keep_alive_options
pub record KeepAlive : Type 0 where
  pub enabled : ℤ
  pub idletime : ℤ
  pub interval : ℤ
  pub retries : ℤ

-- htons, and back: the bytes of a port are in network order on any machine.
abbrev pub port_bytes : ℕ → Bytes
port_bytes port = (port / 256) % 256 ∷ port % 256 ∷ []

-- SOCKET_ERROR
abbrev pub is_error : ℤ → Bool
is_error status = ==ℤ status (negsuc 0)

abbrev pub descriptor_of : Info Kind → ℤ
descriptor_of info = elim (info.descriptor) [ none ↦ negsuc 0 | some d ↦ pos d ]

-- 1 or 0
abbrev pub int_of : Bool → ℤ
int_of enabled = if enabled then pos 1 else pos 0
