-- ===== src/Networking/Netlink.antt =====
-- Source/networking.cpp: read_netlink_socket, which fills a buffer with the answers of the kernel.
-- The kernel is a parameter: recv of the socket, which gives at most the bytes asked for or throws,
-- and what the macros and structures of <linux/netlink.h> read at the start of an answer.
use impact_socket_set.Base.{
  ℕ, zero, suc, ◌+◌, ◌-◌, ◌%◌, ◌^◌, Bool, not, ◌||◌, ◌==◌, if◌then◌else◌, Bytes, ◌++◌, length, take,
  drop,
}
use impact_socket_set.Base.Int.{ℤ, to_int}
use impact_socket_set.Uri.Chars.{codes}
use impact_socket_set.Uri.Print.{to_string}
use impact_socket_set.Failure.{Result, returns, throws, Action}

-- nlmsghdr, as far as it is read; `is_multi` is the bit NLM_F_MULTI of its flags.
pub record Header : Type 0 where
  pub kind : ℕ
  pub is_multi : Bool
  pub sequence : ℕ
  pub pid : ℕ

pub record Layout : Type 0 where
  pub header : Bytes → Header
  pub message_ok : Bytes → Bool
  pub error_of : Bytes → ℤ
  pub error_kind : ℕ
  pub done_kind : ℕ

-- basic_socket::recv of the kernel's socket, and what its messages look like.
pub record Kernel {ℓ} (World : Type ℓ) : Type ℓ where
  pub recv : ℤ → Action World Bytes
  pub layout : Layout

-- How the loop ends: the length of the answers and the buffer, a throw with the buffer that it leaves,
-- or the end of the fuel.
pub data Reading : Type 0 where
  received_all : ℕ → Bytes → Reading
  failed : Bytes → Bytes → Reading
  out_of_fuel : Reading

-- The bytes that are received are written into the buffer.
abbrev pub write_at : ℕ → Bytes → Bytes → Bytes
write_at offset bytes buffer = take offset buffer ++ (bytes ++ drop (offset + length bytes) buffer)

-- __buffer_length - message_length, an unsigned int that recv takes as an int
abbrev pub room_left : ℕ → ℕ → ℤ
room_left size written = to_int ((size % 2 ^ 32 + 2 ^ 32 - written % 2 ^ 32) % 2 ^ 32)

module _ {ℓ} {World : Type ℓ} (kernel : Kernel World) where
  -- One round of the loop: an answer, and what comes of the rest. `written` is how far the pointer into
  -- the buffer has come; message_length is an int, of which these are the 32 bits.
  abbrev pub on_answer : Bytes → Bytes → ℕ → ℕ → ℕ → Reading × World → World → Reading × World
  on_answer chunk filled written sequence pid rest after =
      let header = kernel.layout.header chunk in
      let total = (written + length chunk) % 2 ^ 32 in
      if not (kernel.layout.message_ok chunk)
      then (failed (codes "Netlink Error: Corrupt Message") filled, after)
      else if header.kind == kernel.layout.error_kind
      then (
        failed (codes "Netlink Error: " ++ to_string (kernel.layout.error_of chunk)) filled,
        after,
      )
      else if header.kind == kernel.layout.done_kind
      then (received_all (written % 2 ^ 32) filled, after)
      else if not header.is_multi
      then (received_all total filled, after)
      else if not (header.sequence == sequence) || not (header.pid == pid)
      then rest
      else (received_all total filled, after)

  abbrev pub on_recv : Bytes → Result Bytes → (Bytes → Reading × World) → World → Reading × World
  on_recv buffer (throws message) next after = (failed message buffer, after)
  on_recv buffer (returns chunk) next after = next chunk

  -- The do-while loop.
  unfoldable pub read_loop : ℕ → Bytes → ℕ → ℕ → ℕ → World → Reading × World
  read_loop zero buffer written sequence pid world = (out_of_fuel, world)
  read_loop (suc fuel) buffer written sequence pid world =
      let (answer, after) = kernel.recv (room_left (length buffer) written) world in
      let next : Bytes → Reading × World = λ chunk.
        let filled = write_at written chunk buffer in
        let rest = read_loop fuel filled (written + length chunk) sequence pid after in
        on_answer chunk filled written sequence pid rest after in
      on_recv buffer answer next after

  unfoldable pub read_netlink_socket : Bytes → ℕ → ℕ → World → Reading × World
  read_netlink_socket buffer = read_loop (suc (length buffer)) buffer 0
