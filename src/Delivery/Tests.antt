-- ===== src/Delivery/Tests.antt =====
-- The operations of a socket over a system that is written out.
use impact_socket_set.Base.{
  ℕ, suc, ◌+◌, ◌-◌, ◌/◌, ◌%◌, false, ◌==◌, if◌then◌else◌, some, List, [], ◌∷◌, ◌++◌, Bytes, length,
  replicate, ◌≡◌, refl, arith,
}
use impact_socket_set.Base.Int.{ℤ, pos, negsuc}
use impact_socket_set.Uri.Chars.{codes}
use impact_socket_set.Uri.Print.{to_string, digits}
use impact_socket_set.Failure.{returns, throws}
use impact_socket_set.Socket.{Info}
use impact_socket_set.Delivery.{
  Kind, Names, SystemCall, bind_to, connect_to, listen_on, shut_down, set_option, send_bytes,
  send_bytes_to, receive, receive_from, socket_name, peer_name, resolve, free_list, interface_index,
  Reply, System, KeepAlive, descriptor_of,
}
use impact_socket_set.Delivery.Operations.{bind_port, local_port, connect, fill_address}
use impact_socket_set.Delivery.Keepalive.{attempt_all, keepalive}
use impact_socket_set.Delivery.Catalog.{connects, operate}
use impact_socket_set.Delivery.Raw.{RawSocket, c_text, attach_to, attach}
use impact_socket_set.Delivery.Lists.{IsLawful}
use impact_socket_set.Delivery.Freed.{is_listing, IsQuiet, lost, operate-made}
use impact_socket_set.Delivery.Ports.{local_port-bind_port}
use impact_socket_set.Delivery.Options.{four, all_set, lines, after_all, keepalive-reports}

-- The lists that are out, the address that was bound, and the calls that are refused.
record Machine : Type 0 where
  lists : ℕ
  bound : Bytes
  calls : ℕ

abbrev names : Names
names = record {
  inet = 2;
  inet6 = 10;
  packet = 17;
  eai_system = negsuc 10;
  sol_socket = 1;
  ipproto_ip = 0;
  ipproto_tcp = 6;
  so_keepalive = 9;
  tcp_keepidle = 4;
  tcp_keepintvl = 5;
  tcp_keepcnt = 6;
  so_broadcast = 6;
  ip_multicast_ttl = 33;
  so_reuseaddr = 2;
  so_reuseport = some 15;
}

abbrev reply : ℤ → Bytes → Reply
reply status address = record { status = status; bytes = []; family = 2; address = address }

-- The option that this machine does not know.
abbrev refused : ℕ → ℤ
refused option = if option == 5 then negsuc 0 else pos 0

abbrev perform : SystemCall → Machine → Reply × Machine
perform (bind_to d address size) m =
    (reply (pos 0) [], record { lists = m.lists; bound = address; calls = suc m.calls })
perform (set_option d level option value) m =
    (reply (refused option) [], record { lists = m.lists; bound = m.bound; calls = suc m.calls })
perform (resolve kind address port) m = (
  reply (pos 0) (2 ∷ 0 ∷ 0 ∷ 80 ∷ replicate 12 1),
  record { lists = suc m.lists; bound = m.bound; calls = suc m.calls },
)
perform free_list m =
    (reply (pos 0) [], record { lists = m.lists - 1; bound = m.bound; calls = suc m.calls })
perform (connect_to d address size) m = (reply (pos 0) [], m)
perform (listen_on d backlog) m = (reply (negsuc 0) [], m)
perform (shut_down d channel) m = (reply (pos 0) [], m)
perform (send_bytes d bytes flags) m = (reply (pos (length bytes)) [], m)
perform (send_bytes_to d bytes flags address size) m = (reply (pos (length bytes)) [], m)
perform (receive d count flags) m = (reply (pos 0) [], m)
perform (receive_from d count flags size) m = (reply (pos 0) [], m)
perform (socket_name d size) m = (reply (pos 0) m.bound, m)
perform (peer_name d size) m = (reply (pos 0) m.bound, m)
perform (interface_index d name) m = (reply (pos 0) (length name ∷ 0 ∷ 0 ∷ 0 ∷ []), m)

abbrev system : System Machine
system = record {
  names = names;
  perform = perform;
  error_message = λ m. codes "Bad";
  gai_strerror = λ status. codes "Unknown";
  inet_ntoa = λ bytes. bytes;
  inet_addr = λ text. 224 ∷ 0 ∷ 0 ∷ 1 ∷ [];
  family_bytes = λ family. family ∷ 0 ∷ [];
  unwritten = 0xCC;
}

abbrev fresh : Machine
fresh = record { lists = 0; bound = []; calls = 0 }

abbrev info : Info Kind
info = record { descriptor = some 3; kind = record { domain = 2; type = 1; protocol = 6 } }

abbrev options : KeepAlive
options = record { enabled = pos 1; idletime = pos 60; interval = pos 10; retries = pos 3 }

abbrev raw : RawSocket
raw = record { socket = some info; interface_name = [] }

-- attach asks for an interface by a name that is cut to 15 characters.
raw_attached :
    (attach system raw (codes "an-interface-of-20")).1 fresh
    ≡ (returns tt, record { lists = 0; bound = 17 ∷ 0 ∷ 0 ∷ 3 ∷ 16 ∷ replicate 15 0; calls = 1 })
unfolding attach attach_to c_text
raw_attached = refl

-- Of the four options the third is refused, and the fourth is still attempted.
keepalive_partly :
    ((keepalive system (some info) options fresh).0
      ≡ throws (codes "[interval] Bad" ++ (0x0A ∷ [])))
    × ((keepalive system (some info) options fresh).1.calls ≡ 4)
unfolding keepalive attempt_all
keepalive_partly = (refl, refl)

abbrev tries : List (Bytes × SystemCall)
tries = four system (descriptor_of info) options

keepalive-reports_example : keepalive system (some info) options fresh ≡ (
  if all_set system tries fresh then returns tt else throws (lines system tries fresh),
  after_all system tries fresh,
)
keepalive-reports_example = keepalive-reports system info options fresh

lists-IsLawful : IsLawful system (λ m. m.lists)
lists-IsLawful = record {
  resolves = λ kind address port m. omega arith;
  frees = λ m. refl;
  fails = refl;
}

lists-IsQuiet : IsQuiet system (λ m. m.lists)
lists-IsQuiet = record { others = others }
  where
    others : (c : SystemCall) (m : Machine) → is_listing c ≡ false → (perform c m).1.lists ≡ m.lists
    others (bind_to d address size) m e = refl
    others (connect_to d address size) m e = refl
    others (listen_on d backlog) m e = refl
    others (shut_down d channel) m e = refl
    others (set_option d level option value) m e = refl
    others (send_bytes d bytes flags) m e = refl
    others (send_bytes_to d bytes flags address size) m e = refl
    others (receive d count flags) m e = refl
    others (receive_from d count flags size) m e = refl
    others (socket_name d size) m e = refl
    others (peer_name d size) m e = refl
    others (interface_index d name) m e = refl
    others (resolve kind address port) m e = cc
    others free_list m e = cc

operate-made_example :
    (operate system (connects 80 (codes "host")) (some info) fresh).1.lists
    ≡ fresh.lists + lost system (connects 80 (codes "host")) (some info) fresh
operate-made_example =
    operate-made system (λ m. m.lists) lists-IsLawful lists-IsQuiet (connects 80 (codes "host"))
      (some info) fresh

-- The listing is given back before the address is used.
connects_once :
    (connect system (some info) 80 (codes "host") fresh).1
    ≡ record { lists = 0; bound = []; calls = 2 }
unfolding connect fill_address to_string digits
connects_once = refl

abbrev bound_at : ℕ → Machine
bound_at port = record {
  lists = 0;
  bound = 2 ∷ 0 ∷ (port / 256) % 256 ∷ port % 256 ∷ replicate 12 0;
  calls = 1;
}

local_port-bind_port_example : (local_port system (some info) (bound_at 8080)).0 ≡ returns 8080
unfolding bind_port
local_port-bind_port_example =
    local_port-bind_port system (record { names_bound = λ d a m ok port. (refl, refl) }) info 8080 2
      0 fresh (bound_at 8080) (omega arith) (omega arith) refl refl
