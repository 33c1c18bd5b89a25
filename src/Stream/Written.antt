-- ===== src/Stream/Written.antt =====
-- Source/socketstream.cpp: what a text that is written to the stream is on the wire.
use impact_socket_set.Base.{
  ℕ, suc, ◌-◌, true, false, not, ltb, if◌then◌else◌, Option, none, some, [], ◌∷◌, ◌++◌,
  append_assoc, append-nil, Bytes, length, length-append, ◌≡◌, refl, sym, ap, ◌∙◌, subst, arith,
  Bool-cases, inl, inr,
}
use impact_socket_set.Base.Int.{ℤ, pos}
use impact_socket_set.Stream.{Wire, Stream, eof, write_base, sync, put_char, put_all}

-- The text without each character that finds the put area full, from a given fill of it on.
unfoldable pub without_overflow : ℕ → ℕ → Bytes → Bytes
without_overflow room filled [] = []
without_overflow room filled (byte ∷ rest) =
    if ltb filled room
    then byte ∷ without_overflow room (suc filled) rest
    else without_overflow room 0 rest

-- A connected socket whose sends take everything, and the bytes that it has taken so far.
pub record IsReliable {ℓ} {World : Type ℓ} (wire : Wire World) (log : World → Bytes) : Type ℓ where
  pub valid : (world : World) → wire.is_valid world ≡ true
  pub sends : (bytes : Bytes) (world : World) → (n : ℕ) × ((wire.send bytes world).0 ≡ some n)
  pub logs : (bytes : Bytes) (world : World) → log (wire.send bytes world).1 ≡ log world ++ bytes

module _ {ℓ} {World : Type ℓ} (wire : Wire World) (log : World → Bytes)
    (reliable : IsReliable wire log) where
  write_base-sends :
      (c : ℤ) (s : Stream) (world : World)
      → s.hangup ≡ false
      → write_base wire c s world
        ≡ (c, (record s { put_area = [] }, (wire.send s.put_area world).1))
  unfolding write_base
  write_base-sends c s world going =
      let (n, took) = reliable.sends s.put_area world in
      let after : World = (wire.send s.put_area world).1 in
      let lost : ℤ × (Stream × World) = (eof, (s, world)) in
      let hung : ℤ × (Stream × World) = (eof, (record s { bad = true }, world)) in
      let refused : ℤ × (Stream × World) = (eof, (s, after)) in
      let sent : ℤ × (Stream × World) = (c, (record s { put_area = [] }, after)) in
      let flushed : Option ℕ → ℤ × (Stream × World) =
        λ o. elim o [ none ↦ refused | some _ ↦ sent ] in
      let answer : Option ℕ = (wire.send s.put_area world).0 in
      ap (λ b. if not b then lost else if s.hangup then hung else flushed answer)
        (reliable.valid world)
      ∙ ap (λ b. if b then hung else flushed answer) going
      ∙ ap flushed took

  put_char-room :
      (byte : ℕ) (s : Stream) (world : World)
      → ltb (length s.put_area) (s.buffer_size - 1) ≡ true
      → put_char wire byte s world
        ≡ (pos byte, (record s { put_area = s.put_area ++ (byte ∷ []) }, world))
  unfolding put_char
  put_char-room byte s world room = rw (room, put_char) refl

  put_char-full :
      (byte : ℕ) (s : Stream) (world : World)
      → ltb (length s.put_area) (s.buffer_size - 1) ≡ false
      → s.hangup ≡ false
      → put_char wire byte s world
        ≡ (pos byte, (record s { put_area = [] }, (wire.send s.put_area world).1))
  unfolding put_char
  put_char-full byte s world full going =
      rw (full, put_char) (write_base-sends (pos byte) s world going)

  -- The wire and the put area hold the text without its overflowing characters.
  abbrev Logs : Bytes → Stream × World → Type 0
  Logs text r = (r.0.hangup ≡ false) × (log r.1 ++ r.0.put_area ≡ text)

  put_all-Logs :
      (text : Bytes) (s : Stream) (world : World)
      → s.hangup ≡ false
      → Logs
          (log world
            ++ (s.put_area ++ without_overflow (s.buffer_size - 1) (length s.put_area) text))
          (put_all wire text s world)
  unfolding put_all without_overflow
  put_all-Logs [] s world going = (going, ap (λ t. log world ++ t) (sym (append-nil s.put_area)))
  put_all-Logs (byte ∷ rest) s world going =
      let room : ℕ = s.buffer_size - 1 in
      elim (Bool-cases (ltb (length s.put_area) room)) [
        | inl e ↦
            let t : Stream = record s { put_area = s.put_area ++ (byte ∷ []) } in
            let later = put_all-Logs rest t world going in
            let size : length t.put_area ≡ suc (length s.put_area) =
              omega (arith, length-append s.put_area (byte ∷ [])) in
            let same : log world ++ (t.put_area ++ without_overflow room (length t.put_area) rest)
                ≡ log world
                  ++ (s.put_area ++ without_overflow room (length s.put_area) (byte ∷ rest)) =
              ap (λ k. log world ++ (t.put_area ++ without_overflow room k rest)) size
              ∙ ap (λ u. log world ++ u)
                  (append_assoc s.put_area (byte ∷ [])
                    (without_overflow room (suc (length s.put_area)) rest))
              ∙ ap
                  (λ b.
                    log world
                    ++ (s.put_area
                        ++ (if b
                            then byte ∷ without_overflow room (suc (length s.put_area)) rest
                            else without_overflow room 0 rest)))
                  (sym e) in
            subst
              (λ r.
                Logs
                  (log world
                    ++ (s.put_area ++ without_overflow room (length s.put_area) (byte ∷ rest)))
                  (put_all wire rest r.1.0 r.1.1))
              (sym (put_char-room byte s world e)) (later.0, later.1 ∙ same)
        | inr e ↦
            let t : Stream = record s { put_area = [] } in
            let after : World = (wire.send s.put_area world).1 in
            let later = put_all-Logs rest t after going in
            let same : log after ++ without_overflow room 0 rest
                ≡ log world
                  ++ (s.put_area ++ without_overflow room (length s.put_area) (byte ∷ rest)) =
              ap (λ u. u ++ without_overflow room 0 rest) (reliable.logs s.put_area world)
              ∙ append_assoc (log world) s.put_area (without_overflow room 0 rest)
              ∙ ap
                  (λ b.
                    log world
                    ++ (s.put_area
                        ++ (if b
                            then byte ∷ without_overflow room (suc (length s.put_area)) rest
                            else without_overflow room 0 rest)))
                  (sym e) in
            subst
              (λ r.
                Logs
                  (log world
                    ++ (s.put_area ++ without_overflow room (length s.put_area) (byte ∷ rest)))
                  (put_all wire rest r.1.0 r.1.1))
              (sym (put_char-full byte s world e going)) (later.0, later.1 ∙ same)
      ]

  -- A text that is written to a stream whose put area is empty, over a connection that takes all
  -- that is sent, and then flushed by `sync`: what arrives is the text without each character that
  -- found the put area full. One less than the buffer size fit in it, so of a longer text every
  -- character at a multiple of the buffer size, counted from 1, is lost.
  pub write_text :
      (text : Bytes) (s : Stream) (world : World)
      → s.hangup ≡ false
      → s.put_area ≡ []
      → (let (t, after) = put_all wire text s world in
          ((sync wire t after).0 ≡ pos 0)
          × (log (sync wire t after).1.1
              ≡ log world ++ without_overflow (s.buffer_size - 1) 0 text))
  write_text text s world going empty =
      let r : Stream × World = put_all wire text s world in
      let (still, logged) = put_all-Logs text s world going in
      let synced = write_base-sends (pos 0) r.0 r.1 still in
      (
        ap (λ a. a.0) synced,
        ap (λ a. log a.1.1) synced
            ∙ reliable.logs r.0.put_area r.1
            ∙ logged
            ∙ ap (λ p. log world ++ (p ++ without_overflow (s.buffer_size - 1) (length p) text))
                empty,
      )
