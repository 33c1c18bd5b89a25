-- ===== src/Stream/Tests.antt =====
-- A stream over a socket that keeps what is sent, with the bytes that wait to be received.
use impact_socket_set.Base.{
  ℕ, ◌≤◌, ◌<◌, true, false, Option, none, some, [], ◌∷◌, ◌++◌, Bytes, length, length-take, map,
  subst, take, drop, ◌≡◌, refl, arith,
}
use impact_socket_set.Base.Int.{ℤ, pos, negsuc}
use impact_socket_set.Probe.{PollHandle, poll}
use impact_socket_set.Stream.{
  Wire, eof, set_timeout, initialize, sync, put_all, on_events, after_poll, underflow,
}
use impact_socket_set.Stream.Written.{without_overflow, IsReliable, write_text}
use impact_socket_set.Stream.Inside.{puts, syncs, reads, use_all, use_all-stays_inside}

-- What was sent, and what is still to be received.
abbrev Line : Type 0
Line = Bytes × Bytes

abbrev received : ℤ → Line → Option Bytes × Line
received (pos count) (sent, waiting) = (some (take count waiting), (sent, drop count waiting))
received (negsuc _) line = (none, line)

-- Every socket can be read.
abbrev readable : PollHandle → PollHandle
readable handle = record handle { return_events = 1 }

abbrev wire : Wire Line
wire = record {
  poll_in = 1;
  poll_hangup = 16;
  system_poll = λ handles timeout line. (map readable handles, (pos 1, line));
  is_valid = λ line. true;
  descriptor = λ line. pos 3;
  send = λ bytes line. (some (length bytes), (line.0 ++ bytes, line.1));
  recv = received;
}

abbrev sent : Line → Bytes
sent line = line.0

abbrev idle : Line
idle = ([], 0xFF ∷ 0x41 ∷ [])

-- With room for two characters, the third of five is lost.
without_overflow_small : without_overflow 2 0 (1 ∷ 2 ∷ 3 ∷ 4 ∷ 5 ∷ []) ≡ 1 ∷ 2 ∷ 4 ∷ 5 ∷ []
unfolding without_overflow
without_overflow_small = refl

-- Where char is signed, a byte 0xFF at the head of what is received reads as the end of the file,
-- though the get area has it.
underflow_ff :
    ((underflow wire true (initialize wire 0 idle) idle).0 ≡ eof)
    × ((underflow wire true (initialize wire 0 idle) idle).1.0.get_area ≡ 0xFF ∷ 0x41 ∷ [])
    × ((underflow wire false (initialize wire 0 idle) idle).0 ≡ pos 0xFF)
unfolding underflow on_events after_poll initialize poll
underflow_ff = (refl, refl, refl)

set_timeout_negative : (set_timeout (negsuc 4) (initialize wire 0 idle)).timeout ≡ negsuc 0
unfolding set_timeout initialize
set_timeout_negative = refl

wire-IsReliable : IsReliable wire sent
wire-IsReliable = record {
  valid = λ line. refl;
  sends = λ bytes line. (length bytes, refl);
  logs = λ bytes line. refl;
}

write_text_example :
    (let (t, after) = put_all wire (7 ∷ 8 ∷ []) (initialize wire 0 idle) idle in
      ((sync wire t after).0 ≡ pos 0)
      × (sent (sync wire t after).1.1 ≡ [] ++ without_overflow 255 0 (7 ∷ 8 ∷ [])))
unfolding initialize
write_text_example =
    write_text wire sent wire-IsReliable (7 ∷ 8 ∷ []) (initialize wire 0 idle) idle refl refl

wire_bounded :
    (count : ℕ) (line : Line) (bytes : Bytes)
    → (wire.recv (pos count) line).0 ≡ some bytes
    → length bytes ≤ count
wire_bounded count line bytes e =
    let same : take count line.1 ≡ bytes = cc in
    subst (λ b. length b ≤ count) same (omega (arith, length-take count line.1))

use_all-stays_inside_example :
    (let s = (use_all wire true (puts 7 ∷ reads ∷ syncs ∷ []) (initialize wire 0 idle, idle)).0 in
      (length s.put_area < s.buffer_size)
      × (length s.get_area ≤ s.buffer_size)
      × (s.buffer_size < s.allocated))
use_all-stays_inside_example =
    use_all-stays_inside wire true 0 idle (puts 7 ∷ reads ∷ syncs ∷ []) (omega arith) wire_bounded
