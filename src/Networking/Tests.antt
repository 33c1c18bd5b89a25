-- ===== src/Networking/Tests.antt =====
-- The networking queries over a system that is written out.
use impact_socket_set.Base.{
  ℕ, suc, ◌-◌, ◌<◌, ◌≤◌, true, ◌==◌, ltb, if◌then◌else◌, none, some, List, [], ◌∷◌, ◌++◌, Bytes,
  length, get_or, take, replicate, length-take, ◌≡◌, refl, subst, arith,
}
use impact_socket_set.Base.Int.{ℤ, pos, negsuc}
use impact_socket_set.Uri.Chars.{codes}
use impact_socket_set.Failure.{Result, returns, throws}
use impact_socket_set.Socket.{release}
use impact_socket_set.Delivery.{Names, SystemCall, send_bytes, receive, Reply}
use impact_socket_set.Networking.Local.{Descriptors}
use impact_socket_set.Networking.Held.{Holds}
use impact_socket_set.Networking.Netlink.{
  Layout, Kernel, received_all, read_loop, read_netlink_socket,
}
use impact_socket_set.Networking.Room.{EndsInside, read_netlink_socket-EndsInside}
use impact_socket_set.Networking.Routes.{Host, Message, take_attributes, pick_route}
use impact_socket_set.Networking.Interfaces.{Links, Link, Codes, find_network_interfaces}
use impact_socket_set.Networking.Returned.{find_network_interfaces-Holds}

-- The descriptors that are open, and the answers that wait.
abbrev Wire : Type 0
Wire = List ℕ × List Bytes

abbrev opened : Wire → List ℕ
opened wire = wire.0

abbrev answer : ℤ → Wire → Result Bytes × Wire
answer (pos count) (open_ones, chunk ∷ rest) = (returns (take count chunk), (open_ones, rest))
answer (pos count) (open_ones, []) = (throws [], (open_ones, []))
answer (negsuc _) wire = (throws [], wire)

answer_few :
    (count : ℕ) (w : Wire) (chunk : Bytes)
    → (answer (pos count) w).0 ≡ returns chunk
    → length chunk ≤ count
answer_few count (l, []) chunk e = cc
answer_few count (l, c ∷ rest) chunk e =
    let same : take count c ≡ chunk = cc in
    subst (λ b. length b ≤ count) same (omega (arith, length-take count c))

abbrev layout : Layout
layout = record {
  header = λ chunk. record {
    kind = get_or chunk 4 0;
    is_multi = get_or chunk 6 0 == 2;
    sequence = get_or chunk 8 0;
    pid = get_or chunk 12 0;
  };
  message_ok = λ chunk. ltb 15 (length chunk);
  error_of = λ chunk. pos (get_or chunk 16 0);
  error_kind = 2;
  done_kind = 3;
}

abbrev kernel : Kernel Wire
kernel = record { recv = answer; layout = layout }

whole : (chunk : Bytes) → ltb 15 (length chunk) ≡ true → 0 < length chunk
whole chunk e = ground (arith, e)

-- A message of 16 bytes: its kind, and whether more follow.
abbrev message : ℕ → ℕ → Bytes
message kind flags = 16 ∷ 0 ∷ 0 ∷ 0 ∷ kind ∷ 0 ∷ flags ∷ 0 ∷ replicate 8 0

abbrev two_answers : Wire
two_answers = (3 ∷ [], message 24 2 ∷ message 3 2 ∷ [])

reads_two :
    (read_netlink_socket kernel (replicate 40 0) 1 9 two_answers).0
    ≡ received_all 16 (message 24 2 ++ (message 3 2 ++ replicate 8 0))
unfolding read_netlink_socket read_loop
reads_two = refl

-- A buffer that is full is asked for no more bytes, and reading fails.
read_netlink_socket-EndsInside_example :
    EndsInside 20 (read_netlink_socket kernel (replicate 20 0) 1 9 two_answers).0
read_netlink_socket-EndsInside_example =
    read_netlink_socket-EndsInside kernel answer_few whole (replicate 20 0) 1 9 two_answers
      (omega arith)

-- A route of the main table: to a destination, or to everywhere.
abbrev route_to : ℕ → ℕ → Message
route_to table destination = record {
  family = 2;
  table = table;
  attributes =
      record { kind = 4; value = 7 }
      ∷ record { kind = 5; value = 0x0100A8C0 }
      ∷ record { kind = 1; value = destination }
      ∷ [];
}

-- The next descriptor is 5.
abbrev descriptors : Descriptors Wire
descriptors = record {
  unset = record { domain = 0; type = 3; protocol = 0 };
  open_socket = λ kind w. (some 5, (5 ∷ w.0, w.1));
  close_descriptor = λ d w. (true, (release d w.0, w.1));
  error_message = λ w. codes "Bad";
}

abbrev reply : ℤ → Bytes → Reply
reply status bytes = record { status = status; bytes = bytes; family = 0; address = [] }

abbrev perform : SystemCall → Wire → Reply × Wire
perform (send_bytes d bytes flags) w = (reply (pos (length bytes)) [], w)
perform (receive d count flags) (l, []) = (reply (negsuc 0) [], (l, []))
perform (receive d count flags) (l, chunk ∷ rest) =
    (reply (pos (length (take count chunk))) (take count chunk), (l, rest))
perform _ w = (reply (negsuc 0) [], w)

abbrev names : Names
names = record {
  inet = 2;
  inet6 = 10;
  packet = 17;
  eai_system = negsuc 10;
  sol_socket = 1;
  ipproto_ip = 0;
  ipproto_tcp = 6;
  so_keepalive = 9;
  tcp_keepidle = 4;
  tcp_keepintvl = 5;
  tcp_keepcnt = 6;
  so_broadcast = 6;
  ip_multicast_ttl = 33;
  so_reuseaddr = 2;
  so_reuseport = none;
}

abbrev host_of : List Message → Host Wire
host_of found = record {
  descriptors = descriptors;
  system = record {
    names = names;
    perform = perform;
    error_message = λ w. codes "Bad";
    gai_strerror = λ e. [];
    inet_ntoa = λ b. b;
    inet_addr = λ b. b;
    family_bytes = λ f. f ∷ 0 ∷ [];
    unwritten = 0;
  };
  netlink = record { domain = 16; type = 2; protocol = 0 };
  layout = layout;
  request = λ sequence pid. message 26 1;
  pid = 9;
  messages = λ buffer count. found;
  name_of = λ index. if index == 7 then some (codes "eth0") else none;
  inet = 2;
  main_table = 254;
  oif = 4;
  gateway_kind = 5;
  destination_kind = 1;
}

picks :
    (pick_route (host_of []) (route_to 254 5 ∷ route_to 254 0 ∷ [])
      ≡ some (record {
        name = some (codes "eth0");
        iface_index = 7;
        gateway = 0x0100A8C0;
        destination = 0;
      }))
    × (pick_route (host_of []) (route_to 255 5 ∷ route_to 254 0 ∷ []) ≡ none)
unfolding pick_route take_attributes
picks = (refl, refl)

abbrev linux : Codes
linux = record {
  inet = 2;
  inet6 = 10;
  packet = 17;
  arp_ether = 1;
  arp_eether = 2;
  arp_ieee802 = 6;
  arp_ieee802_tr = 800;
  arp_ieee80211 = 801;
  arp_prism = 802;
  arp_radiotap = 803;
  arp_ieee1394 = 24;
  arp_ppp = 512;
  arp_atm = 19;
}

abbrev link : Bytes → ℕ → Link
link name family = record {
  name = name;
  flags = 65;
  address = some (record { family = family; bytes = replicate 28 1 });
  netmask = none;
  broadcast = none;
}

abbrev found : List Link
found = link (codes "eth0") 17 ∷ link (codes "eth0") 2 ∷ link (codes "eth0") 10 ∷ []

-- The world is the descriptors that are open, and how many lists are held.
abbrev Store : Type 0
Store = List ℕ × ℕ

abbrev links : Links Store
links = record {
  codes = linux;
  get_links = λ w. (some found, (w.0, suc w.1));
  free_links = λ w. (w.0, w.1 - 1);
  descriptors = record {
    unset = record { domain = 0; type = 3; protocol = 0 };
    open_socket = λ kind w. (some 5, (5 ∷ w.0, w.1));
    close_descriptor = λ d w. (true, (release d w.0, w.1));
    error_message = λ w. codes "Bad";
  };
  inet_kind = record { domain = 2; type = 2; protocol = 0 };
  hardware = λ d name w. (some (1, replicate 14 9), w);
  index_of = λ name. 2;
  error_message = λ w. codes "Bad";
}

abbrev lists : Store → ℕ
lists w = w.1

abbrev opened_ones : Store → List ℕ
opened_ones w = w.0

find_network_interfaces-Holds_example :
    Holds opened_ones lists (find_network_interfaces links (3 ∷ [], 1)).1 (3 ∷ []) 1
find_network_interfaces-Holds_example =
    find_network_interfaces-Holds links opened_ones lists
      (record {
        descriptors = record { opens = λ kind w. (refl, refl); closes = λ d w. (refl, refl) };
        asks = λ d name w. (refl, refl);
        gives = λ w l e. (refl, refl);
        refuses = λ w e. cc;
        frees = λ w. (refl, refl);
      })
      (3 ∷ [], 1)
