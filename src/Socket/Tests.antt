-- ===== src/Socket/Tests.antt =====
-- Sockets that are copied, moved, assigned and destroyed.
use impact_socket_set.Base.{ℕ, true, false, some, List, [], ◌∷◌, ◌≡◌, refl}
use impact_socket_set.Base.Int.{pos, negsuc}
use impact_socket_set.Socket.{
  Sockets, Call, constructs, makes, accepts, copies, moves, destroys, get, kind_of, is_valid,
  use_count, close, dtor, copy, move, construct, make_socket, accept, destroy, call, run,
  no_sockets,
}
use impact_socket_set.Socket.Counts.{count}
use impact_socket_set.Socket.Owned.{IsOwned}
use impact_socket_set.Socket.Runs.{ArePossible, run-IsOwned, run-no_leak}

-- A socket is made and copied, the first object is destroyed, and the copy is moved and destroyed.
-- A connection is accepted on it in between.
abbrev handed_on : List (Call ℕ)
handed_on =
    makes 7 (some 3)
    ∷ copies 0
    ∷ destroys 0 true
    ∷ moves 1
    ∷ accepts 2 (some 4)
    ∷ destroys 1 true
    ∷ destroys 2 true
    ∷ destroys 3 true
    ∷ []

abbrev after : List (Call ℕ) → Sockets ℕ
after calls = run 0 calls no_sockets

-- The descriptor stays open until the last owner is gone.
run_handed_on :
    ((after (makes 7 (some 3) ∷ copies 0 ∷ destroys 0 true ∷ [])).open_descriptors ≡ 3 ∷ [])
    × ((after handed_on).open_descriptors ≡ [])
unfolding run call make_socket accept copy move destroy dtor close
run_handed_on = (refl, refl)

abbrev shared_and_empty : Sockets ℕ
shared_and_empty = after (makes 7 (some 3) ∷ copies 0 ∷ constructs ∷ [])

observers :
    (get 0 1 shared_and_empty ≡ pos 3)
    × (kind_of 0 1 shared_and_empty ≡ 7)
    × (is_valid 0 1 shared_and_empty ≡ true)
    × (use_count 0 1 shared_and_empty ≡ 2)
    × (get 0 2 shared_and_empty ≡ negsuc 0)
    × (is_valid 0 2 shared_and_empty ≡ false)
unfolding run call make_socket copy construct get kind_of is_valid use_count
observers = (refl, refl, refl, refl, refl, refl)

handed_on_possible : ArePossible 0 handed_on no_sockets
unfolding ArePossible count call make_socket accept copy move destroy dtor close
handed_on_possible = (refl, (tt, (tt, (tt, (refl, (tt, (tt, (tt, tt))))))))

run-IsOwned_example : IsOwned 0 (run 0 handed_on no_sockets)
run-IsOwned_example = run-IsOwned 0 handed_on handed_on_possible

run-no_leak_example : (run 0 handed_on no_sockets).open_descriptors ≡ []
unfolding run call make_socket accept copy move destroy dtor close
run-no_leak_example = run-no_leak 0 handed_on handed_on_possible (λ cell. refl)

abbrev one_socket : Sockets ℕ
one_socket = record {
  cells = record { descriptor = some 3; kind = 7 } ∷ [];
  objects = some 0 ∷ [];
  open_descriptors = 3 ∷ [];
}
