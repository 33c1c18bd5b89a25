-- ===== src/Networking/Interfaces.antt =====
-- Source/networking.cpp: find_network_interfaces on Linux. getifaddrs, if_nametoindex, the ioctl for
-- the hardware address and the numbers of <sys/socket.h> and <net/if_arp.h> are those of `Links`. The
-- handle for the ioctl is a basic_socket, with its own operations.
use impact_socket_set.Base.{
  ℕ, Bool, false, ◌||◌, ◌==◌, if◌then◌else◌, Option, none, some, List, [], ◌∷◌, ◌++◌, Bytes, take,
}
use impact_socket_set.Failure.{returns, throws, Action, pure, lift, ◌>>=◌, ◌>>◌}
use impact_socket_set.Base.Int.{ℤ}
use impact_socket_set.Delivery.{Kind as SocketKind}
use impact_socket_set.Networking.Local.{Descriptors, descriptor, make_local, close_local}

-- A sockaddr: its family and all its bytes.
pub record Address : Type 0 where
  pub family : ℕ
  pub bytes : Bytes

-- ifaddrs; a null pointer is none
pub record Link : Type 0 where
  pub name : Bytes
  pub flags : ℕ
  pub address : Option Address
  pub netmask : Option Address
  pub broadcast : Option Address

-- interface_type
pub data Kind : Type 0 where
  other ethernet wifi firewire ppp atm : Kind

-- netinterface
pub record Interface : Type 0 where
  pub name : Bytes
  pub friendly_name : Bytes
  pub kind : Kind
  pub iface_index : ℕ
  pub flags : ℕ
  pub address : Option Address
  pub netmask : Option Address
  pub broadcast : Option Address
  pub mac : Bytes
  pub ipv4 : Bool
  pub ipv6 : Bool

pub record Codes : Type 0 where
  pub inet : ℕ
  pub inet6 : ℕ
  pub packet : ℕ
  pub arp_ether : ℕ
  pub arp_eether : ℕ
  pub arp_ieee802 : ℕ
  pub arp_ieee802_tr : ℕ
  pub arp_ieee80211 : ℕ
  pub arp_prism : ℕ
  pub arp_radiotap : ℕ
  pub arp_ieee1394 : ℕ
  pub arp_ppp : ℕ
  pub arp_atm : ℕ

pub record Links {ℓ} (World : Type ℓ) : Type ℓ where
  pub codes : Codes
  pub get_links : World → Option (List Link) × World
  pub free_links : World → World
  pub descriptors : Descriptors World
  pub inet_kind : SocketKind
  pub hardware : ℤ → Bytes → World → Option (ℕ × Bytes) × World
  pub index_of : Bytes → ℕ
  pub error_message : World → Bytes

module _ (codes : Codes) where
  abbrev pub copy_of : Address → Option Address
  copy_of a =
      if a.family == codes.inet
      then some (record a { bytes = take 16 a.bytes })
      else if a.family == codes.inet6
      then some (record a { bytes = take 28 a.bytes })
      else none

  unfoldable pub copy_sockaddr_to_ptr : Option Address → Option Address
  copy_sockaddr_to_ptr none = none
  copy_sockaddr_to_ptr (some a) = copy_of a

  unfoldable pub get_interface_type : ℕ → Kind
  get_interface_type code =
      if code == codes.arp_ether || code == codes.arp_eether
      then ethernet
      else if code == codes.arp_ieee802
          || (code == codes.arp_ieee802_tr
              || (code == codes.arp_ieee80211
                  || (code == codes.arp_prism || code == codes.arp_radiotap)))
      then wifi
      else if code == codes.arp_ieee1394
      then firewire
      else if code == codes.arp_ppp
      then ppp
      else if code == codes.arp_atm
      then atm
      else other

  abbrev pub has_family : ℕ → Option Address → Bool
  has_family family none = false
  has_family family (some a) = a.family == family

module _ {ℓ} {World : Type ℓ} (links : Links World) where
  -- The token of a link, before its hardware is asked for.
  unfoldable pub token_of : Link → Interface
  token_of link = record {
    name = link.name;
    friendly_name = link.name;
    kind = other;
    iface_index = links.index_of link.name;
    flags = link.flags;
    address = copy_sockaddr_to_ptr links.codes link.address;
    netmask = copy_sockaddr_to_ptr links.codes link.netmask;
    broadcast = copy_sockaddr_to_ptr links.codes link.broadcast;
    mac = [];
    ipv4 = has_family links.codes links.codes.inet link.address;
    ipv6 = has_family links.codes links.codes.inet6 link.address;
  }

  -- The answer of the ioctl, once the socket is closed: the first six bytes are the address.
  abbrev pub with_hardware : Interface → Option (ℕ × Bytes) → Action World Interface
  with_hardware token none world =
      (throws (links.error_message world ++ (b' ' ∷ (token.name ++ (0x0A ∷ [])))), world)
  with_hardware token (some (code, bytes)) world = (
    returns (record token { kind = get_interface_type links.codes code; mac = take 6 bytes }),
    world,
  )

  unfoldable pub set_interface_type_mac : Interface → Action World Interface
  set_interface_type_mac token = do
    store ← make_local links.descriptors links.inet_kind
    answer ← lift (links.hardware (descriptor links.descriptors store) token.name)
    close_local links.descriptors store
    with_hardware token answer

  abbrev pub is_packet : Link → Bool
  is_packet link = has_family links.codes links.codes.packet link.address

  -- Each link is asked for its hardware, the packet links too, which are not put on the list.
  unfoldable pub traverse_links : List Link → Action World (List Interface)
  traverse_links [] = pure []
  traverse_links (link ∷ rest) = do
    token ← set_interface_type_mac (token_of link)
    more ← traverse_links rest
    pure (if is_packet link then more else token ∷ more)

  -- freeifaddrs, also before the error is thrown again
  abbrev pub on_links : Option (List Link) → Action World (List Interface)
  on_links none world = (throws (links.error_message world), world)
  on_links (some found) world =
      let (r, after) = traverse_links found world in (r, links.free_links after)

  unfoldable pub find_network_interfaces : Action World (List Interface)
  find_network_interfaces world = let (found, after) = links.get_links world in on_links found after
