-- ===== src/Networking/Routes.antt =====
-- Source/networking.cpp: find_default_route on Linux. What the macros NLMSG_* and RTA_* walk over in
-- the buffer is the parameter `messages`; the calls of the system, getpid and if_indextoname are those of
-- `Host`. The kernel's socket is a basic_socket, with its own operations.
use impact_socket_set.Base.{
  ℕ, ◌-◌, ◌^◌, Bool, not, ◌||◌, ◌==◌, if◌then◌else◌, Option, none, some, List, [], ◌∷◌, ◌++◌, Bytes,
  take, replicate,
}
use impact_socket_set.Failure.{Result, returns, throws, pure, ◌>>=◌}
use impact_socket_set.Base.Int.{ℤ, pos, negsuc}
use impact_socket_set.Delivery.{Kind, System}
use impact_socket_set.Delivery.Operations.{send, recv}
use impact_socket_set.Networking.Netlink.{
  Kernel, Layout, Reading, received_all, failed, out_of_fuel, read_netlink_socket,
}
use impact_socket_set.Networking.Local.{
  Descriptors, Local, handle, make_local, destroy_local, close_local,
}

-- rtattr, with its value as a number
pub record Attribute : Type 0 where
  pub kind : ℕ
  pub value : ℕ

-- rtmsg, and the attributes behind it
pub record Message : Type 0 where
  pub family : ℕ
  pub table : ℕ
  pub attributes : List Attribute

pub record Host {ℓ} (World : Type ℓ) : Type ℓ where
  pub descriptors : Descriptors World
  pub system : System World
  pub netlink : Kind
  pub layout : Layout
  pub request : ℕ → ℕ → Bytes
  pub pid : ℕ
  pub messages : Bytes → ℕ → List Message
  pub name_of : ℕ → Option Bytes
  pub inet : ℕ
  pub main_table : ℕ
  pub oif : ℕ
  pub gateway_kind : ℕ
  pub destination_kind : ℕ

-- The variables of one message; a name that was not written is none.
pub record Fields : Type 0 where
  pub name : Option Bytes
  pub iface_index : ℕ
  pub gateway : ℕ
  pub destination : ℕ

abbrev pub no_fields : Fields
no_fields = record { name = none; iface_index = 0; gateway = 0; destination = 0 }

-- netroute: the fields of a default route, or what it is without one.
abbrev pub Route : Type 0
Route = Option Fields

-- The size_t that ::recv makes of an int
abbrev pub to_size : ℤ → ℕ
to_size (pos n) = n
to_size (negsuc n) = 2 ^ 64 - 1 - n

module _ {ℓ} {World : Type ℓ} (host : Host World) where
  -- if_indextoname leaves the array as it is where it fails.
  abbrev pub name_after : Option Bytes → Option Bytes → Option Bytes
  name_after none before = before
  name_after (some name) before = some name

  abbrev pub take_attribute : Attribute → Fields → Fields
  take_attribute a f =
      if a.kind == host.oif
      then record f { iface_index = a.value; name = name_after (host.name_of a.value) f.name }
      else if a.kind == host.gateway_kind
      then record f { gateway = a.value }
      else if a.kind == host.destination_kind
      then record f { destination = a.value }
      else f

  unfoldable pub take_attributes : List Attribute → Fields → Fields
  take_attributes [] f = f
  take_attributes (a ∷ rest) f = take_attributes rest (take_attribute a f)

  abbrev pub is_foreign : Message → Bool
  is_foreign m = not (m.family == host.inet) || not (m.table == host.main_table)

  -- The loop over the messages.
  unfoldable pub pick_route : List Message → Route
  pick_route [] = none
  pick_route (m ∷ rest) =
      let fields = take_attributes m.attributes no_fields in
      let next = pick_route rest in
      if is_foreign m then none else if fields.destination == 0 then some fields else next

  -- Where close throws, the socket has given its descriptor up already, and its destructor does
  -- nothing.
  abbrev pub on_closed : ℕ → Bytes → Result (Unit {0}) → World → Option (Result Route) × World
  on_closed count buffer (throws message) world = (some (throws message), world)
  on_closed count buffer (returns _) world =
      (some (returns (pick_route (host.messages buffer count))), world)

  -- What follows the reading; `none` if that has not ended.
  abbrev pub on_reading : Local → Reading → World → Option (Result Route) × World
  on_reading store (failed message buffer) world =
      (some (throws message), destroy_local host.descriptors store world)
  on_reading store out_of_fuel world = (none, world)
  on_reading store (received_all count buffer) world =
      let (closed, after) = close_local host.descriptors store world in
      on_closed count buffer closed after

  -- The request stands at the start of the buffer: its number is 0.
  abbrev pub message_buffer : Bytes
  message_buffer = take 8192 (host.request 0 host.pid ++ replicate 8192 0)

  -- basic_socket::recv of the handle, with no flags
  abbrev pub kernel_of : Local → Kernel World
  kernel_of store = record {
    recv = λ count. do
      received ← recv host.system (handle host.descriptors store) (to_size count) 0
      pure received.1;
    layout = host.layout;
  }

  abbrev pub on_sent : Local → Result ℤ → World → Option (Result Route) × World
  on_sent store (throws message) world =
      (some (throws message), destroy_local host.descriptors store world)
  on_sent store (returns _) world =
      let (reading, after) =
        read_netlink_socket (kernel_of store) message_buffer 1 host.pid world in
      on_reading store reading after

  abbrev pub on_made : Result Local → World → Option (Result Route) × World
  on_made (throws message) world = (some (throws message), world)
  on_made (returns store) world =
      let (sent, after) =
        send host.system (handle host.descriptors store) (host.request 0 host.pid) 0 world in
      on_sent store sent after

  -- The answers are read for the number behind that of the request.
  unfoldable pub find_default_route : World → Option (Result Route) × World
  find_default_route world =
      let (made, after) = make_local host.descriptors host.netlink world in on_made made after
