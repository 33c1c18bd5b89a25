-- ===== src/Stream.antt =====
-- Source/socketstream.cpp and Include/sockets/socketstream.h: the stream buffer over a socket.
-- The socket and ::poll are the parameter `Wire`, over a world that they read and write: `send` and
-- `recv` give none where they throw. `put_char` is std::streambuf::sputc, which calls overflow.
-- The put area is the list of the characters between pbase and pptr, the get area those between
-- gptr and egptr.
pub mod Written
pub mod Inside
mod Tests
use impact_socket_set.Base.{
  ℕ, suc, ◌+◌, ◌-◌, ◌%◌, ◌^◌, bit_and, Bool, true, false, not, ltb, leb, ◌==◌, ◌&&◌, if◌then◌else◌,
  Option, none, some, List, [], ◌∷◌, ◌++◌, Bytes, length, get_or,
}
use impact_socket_set.Base.Int.{ℤ, pos, negsuc, ==ℤ, to_int}
use impact_socket_set.Probe.{PollHandle, poll_handle, SystemPoll, poll}

pub record Wire {ℓ} (World : Type ℓ) : Type ℓ where
  pub poll_in : ℕ
  pub poll_hangup : ℕ
  pub system_poll : SystemPoll World
  pub is_valid : World → Bool
  pub descriptor : World → ℤ
  pub send : Bytes → World → Option ℕ × World
  pub recv : ℤ → World → Option Bytes × World

pub record Stream : Type 0 where
  pub buffer_size : ℕ
  pub allocated : ℕ
  pub put_area : Bytes
  pub get_area : Bytes
  pub poll_handles : List PollHandle
  pub hangup : Bool
  pub timeout : ℤ
  pub bad : Bool

abbrev pub eof : ℤ
eof = negsuc 0

-- A char as an int.
abbrev pub char_value : Bool → ℕ → ℤ
char_value signed byte = if signed && leb 128 byte then negsuc (255 - byte) else pos byte

unfoldable pub set_timeout : ℤ → Stream → Stream
set_timeout (pos milliseconds) s = record s { timeout = pos milliseconds }
set_timeout (negsuc _) s = record s { timeout = negsuc 0 }

-- m_poll_handle_[0].return_events = 0
abbrev pub clear_events : List PollHandle → List PollHandle
clear_events [] = []
clear_events (handle ∷ rest) = record handle { return_events = 0 } ∷ rest

abbrev pub hup : Stream → Bool
hup s = s.hangup

module _ {ℓ} {World : Type ℓ} (wire : Wire World) where
  -- _M_initialize, for a size that is an unsigned int
  unfoldable pub initialize : ℕ → World → Stream
  initialize size world =
      let buffer_size = if ltb size 256 then 256 else size in
      record {
        buffer_size = buffer_size;
        allocated = (buffer_size + 1) % 2 ^ 32;
        put_area = [];
        get_area = [];
        poll_handles =
            record poll_handle { socket = wire.descriptor world; events = wire.poll_in } ∷ [];
        hangup = false;
        timeout = negsuc 0;
        bad = false;
      }

  -- socketstream::socketstream: `none` is the exception, for a socket of another type.
  unfoldable pub socketstream : Bool → ℕ → World → Option Stream
  socketstream is_stream size world = if is_stream then some (initialize size world) else none

  -- send(pbase(), pptr() - pbase()) and setp
  abbrev flush : ℤ → Stream → World → ℤ × (Stream × World)
  flush c s world =
      let (sent, after) = wire.send s.put_area world in
      elim sent [ none ↦ (eof, (s, after)) | some _ ↦ (c, (record s { put_area = [] }, after)) ]

  unfoldable pub write_base : ℤ → Stream → World → ℤ × (Stream × World)
  write_base c s world =
      if not (wire.is_valid world)
      then (eof, (s, world))
      else if s.hangup
      then (eof, (record s { bad = true }, world))
      else flush c s world

  abbrev pub sync : Stream → World → ℤ × (Stream × World)
  sync = write_base (pos 0)

  abbrev pub overflow : ℤ → Stream → World → ℤ × (Stream × World)
  overflow = write_base

  -- std::streambuf::sputc, whose to_int_type is that of an unsigned char
  unfoldable pub put_char : ℕ → Stream → World → ℤ × (Stream × World)
  put_char byte s world =
      if ltb (length s.put_area) (s.buffer_size - 1)
      then (pos byte, (record s { put_area = s.put_area ++ (byte ∷ []) }, world))
      else overflow (pos byte) s world

  -- recv into the get area, from eback on: its length is an int
  abbrev fill : Bool → Stream → World → ℤ × (Stream × World)
  fill signed s world =
      let (received, after) = wire.recv (to_int s.buffer_size) world in
      elim received [
        | none ↦ (eof, (s, after))
        | some [] ↦ (eof, (s, after))
        | some (byte ∷ rest) ↦
            (char_value signed byte, (record s { get_area = byte ∷ rest }, after))
      ]

  -- What underflow does with the events of the socket.
  unfoldable pub on_events : Bool → ℕ → Stream → World → ℤ × (Stream × World)
  on_events signed flags s world =
      if not (bit_and flags wire.poll_hangup == 0)
      then (eof, (record s { hangup = true; bad = true }, world))
      else if not (bit_and flags wire.poll_in == 0)
      then fill signed s world
      else (eof, (s, world))

  unfoldable pub after_poll : Bool → List PollHandle → ℤ → Stream → World → ℤ × (Stream × World)
  after_poll signed handles status s world =
      if ==ℤ status (pos 0)
      then (eof, (record s { poll_handles = handles }, world))
      else on_events signed (get_or handles 0 poll_handle).return_events
          (record s { poll_handles = clear_events handles }) world

  unfoldable pub underflow : Bool → Stream → World → ℤ × (Stream × World)
  underflow signed s world =
      if not (wire.is_valid world)
      then (eof, (s, world))
      else if s.hangup
      then (eof, (record s { bad = true }, world))
      else let (left, (status, after)) =
          poll wire.system_poll (some s.poll_handles) s.timeout world in
        elim left [
          | none ↦ (eof, (s, after))
          | some handles ↦ after_poll signed handles status s after
        ]

  -- The characters of a text, one after the other.
  unfoldable pub put_all : Bytes → Stream → World → Stream × World
  put_all [] s world = (s, world)
  put_all (byte ∷ rest) s world =
      let (_, (t, after)) = put_char byte s world in put_all rest t after
