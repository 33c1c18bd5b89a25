-- ===== src/Networking/Room.antt =====
-- Source/networking.cpp: read_netlink_socket stays inside its buffer, and ends.
use impact_socket_set.Base.{
  ℕ, zero, suc, ◌+◌, ◌-◌, ◌%◌, ◌^◌, ◌≤◌, ◌<◌, true, ◌∷◌, [], Bytes, ◌++◌, length, take, drop,
  length-append, length-take, ◌≡◌, refl, sym, ap, subst, ◌∙◌, arith, inl, inr, Bool-cases,
}
use impact_socket_set.Base.Int.{ℤ, pos, to_int, to_int_small}
use impact_socket_set.Failure.{Result, returns, Result-cases}
use impact_socket_set.Networking.Netlink.{
  Kernel, Reading, received_all, failed, out_of_fuel, write_at, room_left, on_answer, on_recv,
  read_loop, read_netlink_socket,
}

pub length-drop : (n : ℕ) (xs : Bytes) → length (drop n xs) ≡ length xs - n
length-drop zero xs = omega arith
length-drop (suc n) [] = omega arith
length-drop (suc n) (x ∷ xs) = omega (arith, length-drop n xs)

-- Bytes that fit are written in place.
length-write_at :
    (offset : ℕ) (bytes buffer : Bytes)
    → offset + length bytes ≤ length buffer
    → length (write_at offset bytes buffer) ≡ length buffer
length-write_at offset bytes buffer fits = omega (
  arith,
  fits,
  length-append (take offset buffer) (bytes ++ drop (offset + length bytes) buffer),
  length-append bytes (drop (offset + length bytes) buffer),
  length-take offset buffer,
  length-drop (offset + length bytes) buffer,
)

-- The loop has ended, with a count that fits the buffer where it returns, and the buffer has kept its
-- size, also where it throws: nothing was written behind it.
abbrev pub EndsInside : ℕ → Reading → Type 0
EndsInside size (received_all count buffer) = (count ≤ size) × (length buffer ≡ size)
EndsInside size (failed message buffer) = length buffer ≡ size
EndsInside size out_of_fuel = ⊥

-- What is asked for is the room that is left.
room_left-pos :
    (size written : ℕ)
    → size < 2 ^ 31
    → written ≤ size
    → room_left size written ≡ pos (size - written)
room_left-pos size written small ahead =
    let e : (size % 2 ^ 32 + 2 ^ 32 - written % 2 ^ 32) % 2 ^ 32 ≡ size - written =
      omega (arith, small, ahead) in
    ap to_int e ∙ to_int_small (size - written) (omega (arith, small))

module _ {ℓ} {World : Type ℓ} (kernel : Kernel World)
    (asked : (count : ℕ) (world : World) (chunk : Bytes)
      → (kernel.recv (pos count) world).0 ≡ returns chunk
      → length chunk ≤ count)
    (whole : (chunk : Bytes) → kernel.layout.message_ok chunk ≡ true → 0 < length chunk) where
  on_answer-EndsInside :
      (size written sequence pid : ℕ) (chunk filled : Bytes) (rest : Reading × World)
      (after : World)
      → size < 2 ^ 31
      → length filled ≡ size
      → written + length chunk ≤ size
      → (0 < length chunk → EndsInside size rest.0)
      → EndsInside size (on_answer kernel chunk filled written sequence pid rest after).0
  on_answer-EndsInside size written sequence pid chunk filled rest after small same fits goes_on =
      elim (Bool-cases (kernel.layout.message_ok chunk)) [
        | inl ok ↦
            let go : EndsInside size rest.0 = goes_on (whole chunk ok) in
            ground (arith, ok, fits, same, small)
        | inr bad ↦ rw bad same
      ]

  read_loop-EndsInside :
      (size fuel written sequence pid : ℕ) (buffer : Bytes) (world : World)
      → size < 2 ^ 31
      → length buffer ≡ size
      → written ≤ size
      → size < fuel + written
      → EndsInside size (read_loop kernel fuel buffer written sequence pid world).0
  unfolding read_loop
  read_loop-EndsInside size zero written sequence pid buffer world small same ahead enough =
      omega (arith, ahead, enough)
  read_loop-EndsInside size (suc fuel) written sequence pid buffer world small same ahead enough =
      let room : ℤ = room_left (length buffer) written in
      let left : room ≡ pos (size - written) =
        ap (λ n. room_left n written) same ∙ room_left-pos size written small ahead in
      let after : World = (kernel.recv room world).1 in
      let next : Bytes → Reading × World = λ chunk.
        on_answer kernel chunk (write_at written chunk buffer) written sequence pid
          (read_loop kernel fuel (write_at written chunk buffer) (written + length chunk) sequence
            pid after)
          after in
      let Inside : Result Bytes → Type 0 =
        λ r. EndsInside size (on_recv kernel buffer r next after).0 in
      elim (Result-cases (kernel.recv room world).0) [
        | inr (message, e) ↦ subst Inside (sym e) same
        | inl (chunk, e) ↦
            let few : length chunk ≤ size - written =
              asked (size - written) world chunk
                (ap (λ n. (kernel.recv n world).0) (sym left) ∙ e) in
            let fits : written + length chunk ≤ size = omega (arith, few, ahead) in
            let filled : Bytes = write_at written chunk buffer in
            let kept : length filled ≡ size =
              length-write_at written chunk buffer (omega (arith, fits, same)) ∙ same in
            subst Inside (sym e) (
              on_answer-EndsInside size written sequence pid chunk filled _ after small kept fits
                (λ some_bytes.
                  read_loop-EndsInside size fuel (written + length chunk) sequence pid filled after
                    small kept fits (omega (arith, enough, some_bytes))))
      ]

  -- Whatever the kernel answers, reading ends, whether it returns or throws: it has counted no more
  -- bytes than the buffer has, and has written none behind it, if recv gives at most the bytes asked
  -- for, a message that NLMSG_OK accepts is not empty, and the buffer is smaller than 2^31 bytes.
  pub read_netlink_socket-EndsInside :
      (buffer : Bytes) (sequence pid : ℕ) (world : World)
      → length buffer < 2 ^ 31
      → EndsInside (length buffer) (read_netlink_socket kernel buffer sequence pid world).0
  unfolding read_netlink_socket
  read_netlink_socket-EndsInside buffer sequence pid world small =
      read_loop-EndsInside (length buffer) (suc (length buffer)) 0 sequence pid buffer world small
        refl (omega arith) (omega arith)
