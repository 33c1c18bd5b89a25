-- ===== src/Stream/Inside.antt =====
-- Source/socketstream.cpp: both areas stay inside the buffers.
use impact_socket_set.Base.{
  ℕ, ◌-◌, ◌^◌, ◌≤◌, ◌<◌, bit_and, Bool, not, ltb, ◌==◌, Option, none, some, List, [], ◌∷◌, Bytes,
  length, length-append, get_or, ◌≡◌, refl, sym, ap, ◌∙◌, arith, Bool-cases, inl, inr, if_both,
}
use impact_socket_set.Base.Int.{ℤ, pos, negsuc, ==ℤ, to_int, to_int_small}
use impact_socket_set.Probe.{poll_handle, poll}
use impact_socket_set.Stream.{
  Wire, Stream, eof, char_value, set_timeout, initialize, write_base, sync, put_char, on_events,
  after_poll, clear_events, underflow,
}

-- The put area ends before its last place, the get area fits, and so does the place behind both.
pub record IsInside (s : Stream) : Type 0 where
  pub written : length s.put_area < s.buffer_size
  pub received : length s.get_area ≤ s.buffer_size
  pub room : s.buffer_size < s.allocated
  pub is_int : s.buffer_size < 2 ^ 31

-- What a client does with the stream.
pub data Use : Type 0 where
  puts : ℕ → Use
  syncs reads : Use
  waits : ℤ → Use

module _ {ℓ} {World : Type ℓ} (wire : Wire World) (signed : Bool) where
  -- `::recv` gives no more bytes than it was asked for.
  abbrev pub IsBounded : Type ℓ
  IsBounded =
      (count : ℕ) (world : World) (bytes : Bytes)
      → (wire.recv (pos count) world).0 ≡ some bytes
      → length bytes ≤ count

  unfoldable pub use_stream : Use → Stream × World → Stream × World
  use_stream (puts byte) (s, world) = (put_char wire byte s world).1
  use_stream syncs (s, world) = (sync wire s world).1
  use_stream reads (s, world) = (underflow wire signed s world).1
  use_stream (waits milliseconds) (s, world) = (set_timeout milliseconds s, world)

  unfoldable pub use_all : List Use → Stream × World → Stream × World
  use_all [] r = r
  use_all (u ∷ us) r = use_all us (use_stream u r)

  -- The stream that a call leaves is inside its buffers.
  abbrev Leaves : ℤ × (Stream × World) → Type 0
  Leaves r = IsInside r.1.0

  -- Only the areas and the sizes matter.
  same-IsInside :
      (s t : Stream)
      → t.put_area ≡ s.put_area
      → t.get_area ≡ s.get_area
      → t.buffer_size ≡ s.buffer_size
      → t.allocated ≡ s.allocated
      → IsInside s
      → IsInside t
  same-IsInside s t put get size allocated h = record {
    written = rw (put, size) h.written;
    received = rw (get, size) h.received;
    room = rw (size, allocated) h.room;
    is_int = rw size h.is_int;
  }

  sent-Leaves :
      (sent : Option ℕ) (c : ℤ) (s : Stream) (after : World)
      → IsInside s
      → Leaves (elim sent [
        | none ↦ (eof, (s, after))
        | some _ ↦ (c, (record s { put_area = [] }, after))
      ])
  sent-Leaves none c s after h = h
  sent-Leaves (some n) c s after h = record {
    written = omega (arith, h.written);
    received = h.received;
    room = h.room;
    is_int = h.is_int;
  }

  write_base-Leaves :
      (c : ℤ) (s : Stream) (world : World) → IsInside s → Leaves (write_base wire c s world)
  unfolding write_base
  write_base-Leaves c s world h = if_both Leaves (not (wire.is_valid world)) _ _ h (
      if_both Leaves s.hangup _ _ (same-IsInside s _ refl refl refl refl h)
        (sent-Leaves (wire.send s.put_area world).0 c s (wire.send s.put_area world).1 h))

  put_char-Leaves :
      (byte : ℕ) (s : Stream) (world : World) → IsInside s → Leaves (put_char wire byte s world)
  unfolding put_char
  put_char-Leaves byte s world h = elim (Bool-cases (ltb (length s.put_area) (s.buffer_size - 1))) [
    | inl e ↦
        rw (e, put_char)
          (record {
            written = ground (arith, e, length-append s.put_area (byte ∷ []));
            received = h.received;
            room = h.room;
            is_int = h.is_int;
          })
    | inr e ↦ rw (e, put_char) (write_base-Leaves _ s world h)
  ]

  received-Leaves :
      (received : Option Bytes) (s : Stream) (after : World)
      → ((bytes : Bytes) → received ≡ some bytes → length bytes ≤ s.buffer_size)
      → IsInside s
      → Leaves (elim received [
        | none ↦ (eof, (s, after))
        | some [] ↦ (eof, (s, after))
        | some (byte ∷ rest) ↦
            (char_value signed byte, (record s { get_area = byte ∷ rest }, after))
      ])
  received-Leaves none s after bounded h = h
  received-Leaves (some []) s after bounded h = h
  received-Leaves (some (byte ∷ rest)) s after bounded h = record {
    written = h.written;
    received = bounded (byte ∷ rest) refl;
    room = h.room;
    is_int = h.is_int;
  }

  on_events-Leaves :
      (flags : ℕ) (s : Stream) (world : World)
      → IsBounded
      → IsInside s
      → Leaves (on_events wire signed flags s world)
  unfolding on_events
  on_events-Leaves flags s world bounded h =
      if_both Leaves (not (bit_and flags wire.poll_hangup == 0)) _ _
        (same-IsInside s _ refl refl refl refl h)
        (if_both Leaves (not (bit_and flags wire.poll_in == 0)) _ _
          (received-Leaves (wire.recv (to_int s.buffer_size) world).0 s
            (wire.recv (to_int s.buffer_size) world).1
            (λ bytes e.
              bounded s.buffer_size world bytes
                (ap (λ n. (wire.recv n world).0) (sym (to_int_small s.buffer_size h.is_int)) ∙ e))
            h)
          h)

  underflow-Leaves :
      (s : Stream) (world : World) → IsBounded → IsInside s → Leaves (underflow wire signed s world)
  unfolding underflow after_poll poll
  underflow-Leaves s world bounded h =
      let left = wire.system_poll s.poll_handles s.timeout world in
      let t : Stream = record s { poll_handles = clear_events left.0 } in
      if_both Leaves (not (wire.is_valid world)) _ _ h (
        if_both Leaves s.hangup _ _ (same-IsInside s _ refl refl refl refl h) (
          if_both Leaves (==ℤ left.1.0 (pos 0)) _ _ (same-IsInside s _ refl refl refl refl h) (
            on_events-Leaves (get_or left.0 0 poll_handle).return_events t left.1.1 bounded
              (same-IsInside s t refl refl refl refl h))))

  use_all-IsInside :
      (us : List Use) (s : Stream) (world : World)
      → IsBounded
      → IsInside s
      → IsInside (use_all us (s, world)).0
  unfolding use_all use_stream set_timeout
  use_all-IsInside [] s world bounded h = h
  use_all-IsInside (puts byte ∷ us) s world bounded h =
      use_all-IsInside us _ _ bounded (put_char-Leaves byte s world h)
  use_all-IsInside (syncs ∷ us) s world bounded h =
      use_all-IsInside us _ _ bounded (write_base-Leaves (pos 0) s world h)
  use_all-IsInside (reads ∷ us) s world bounded h =
      use_all-IsInside us _ _ bounded (underflow-Leaves s world bounded h)
  use_all-IsInside (waits (pos n) ∷ us) s world bounded h =
      use_all-IsInside us _ _ bounded (same-IsInside s _ refl refl refl refl h)
  use_all-IsInside (waits (negsuc n) ∷ us) s world bounded h =
      use_all-IsInside us _ _ bounded (same-IsInside s _ refl refl refl refl h)

  -- A stream that is made with a buffer size of less than 2^31, which is one of an int, stays inside its two buffers,
  -- whatever is written, flushed, read and set in whatever order: the characters to be sent leave
  -- one place, and the received ones fit, if `::recv` gives no more than it was asked for.
  pub use_all-stays_inside :
      (size : ℕ) (world : World) (us : List Use)
      → size < 2 ^ 31
      → IsBounded
      → (let s = (use_all us (initialize wire size world, world)).0 in
          (length s.put_area < s.buffer_size)
          × (length s.get_area ≤ s.buffer_size)
          × (s.buffer_size < s.allocated))
  unfolding initialize
  use_all-stays_inside size world us small bounded =
      let fresh : IsInside (initialize wire size world) = record {
        written = ground arith;
        received = ground arith;
        room = ground (arith, small);
        is_int = ground (arith, small);
      } in
      let h = use_all-IsInside us (initialize wire size world) world bounded fresh in
      (h.written, h.received, h.room)
