-- ===== src/Uri/Ports/Registry.antt =====
-- What the calls of register_scheme_port and deregister_scheme_port do to the lookup of ports.
use impact_socket_set.Base.{
  true, false, Bool-cases, none, List, [], ◌∷◌, inl, inr, ◌≡◌, refl, ap, ◌∙◌, ==_refl, arith, Bytes,
}
use impact_socket_set.Base.Int.{ℤ}
use impact_socket_set.Errno.{Answer}
use impact_socket_set.Uri.Ports.{
  PortMap, bytes_eq, find, assign, erase, scheme_port_dictionary, register_scheme_port,
  deregister_scheme_port, find_port,
}

-- A call of the public interface, and the user dictionary behind a sequence of them.
pub data Call : Type 0 where
  register : Bytes → ℤ → Call
  deregister : Bytes → Call

abbrev pub call : Call → PortMap → Answer PortMap
call (register scheme port) usr = register_scheme_port scheme port usr
call (deregister scheme) usr = deregister_scheme_port scheme usr

unfoldable pub run : List Call → PortMap → PortMap
run [] usr = usr
run (c ∷ rest) usr = run rest (call c usr).out

bytes_eq_sound : (a b : Bytes) → bytes_eq a b ≡ true → a ≡ b
unfolding bytes_eq
bytes_eq_sound [] [] h = refl
bytes_eq_sound [] (y ∷ ys) h = ground arith
bytes_eq_sound (x ∷ xs) [] h = ground arith
bytes_eq_sound (x ∷ xs) (y ∷ ys) h =
    let head_eq : x ≡ y = ground arith in
    let tail_eq : xs ≡ ys = bytes_eq_sound xs ys (ground arith) in cc

bytes_eq_refl : (a : Bytes) → bytes_eq a a ≡ true
unfolding bytes_eq
bytes_eq_refl [] = refl
bytes_eq_refl (x ∷ xs) = rw (==_refl x) (bytes_eq_refl xs)

-- No key of a map stands outside the permanent dictionary.
abbrev Permanent : PortMap → Type 0
Permanent usr = (key : Bytes) → find key scheme_port_dictionary ≡ none → find key usr ≡ none

find-assign_other :
    (usr : PortMap) (scheme key : Bytes) (port : ℤ)
    → bytes_eq scheme key ≡ false
    → find key usr ≡ none
    → find key (assign scheme port usr) ≡ none
unfolding find assign
find-assign_other [] scheme key port ne h = rw ne refl
find-assign_other ((k, v) ∷ usr) scheme key port ne h =
    let rest = find-assign_other usr scheme key port ne in ground (arith, bytes_eq_sound k scheme)

find-erase :
    (usr : PortMap) (scheme key : Bytes) → find key usr ≡ none → find key (erase scheme usr) ≡ none
unfolding find erase
find-erase [] scheme key h = refl
find-erase ((k, v) ∷ usr) scheme key h = let rest = find-erase usr scheme key in ground arith

call-Permanent : (c : Call) (usr : PortMap) → Permanent usr → Permanent (call c usr).out
unfolding register_scheme_port deregister_scheme_port
call-Permanent (register scheme port) usr h key none_key = elim (Bool-cases (bytes_eq scheme key)) [
  | inl e ↦
      let none_scheme : find scheme scheme_port_dictionary ≡ none =
        ap (λ k. find k scheme_port_dictionary) (bytes_eq_sound scheme key e) ∙ none_key in
      rw (call, register_scheme_port, none_scheme) (h key none_key)
  | inr ne ↦
      let kept = find-assign_other usr scheme key port ne (h key none_key) in
      let before = h key none_key in ground arith
]
call-Permanent (deregister scheme) usr h key none_key =
    let kept = find-erase usr scheme key (h key none_key) in
    let before = h key none_key in ground arith

run-Permanent : (calls : List Call) (usr : PortMap) → Permanent usr → Permanent (run calls usr)
unfolding run
run-Permanent [] usr h = h
run-Permanent (c ∷ rest) usr h = run-Permanent rest (call c usr).out (call-Permanent c usr h)

-- However often schemes are registered and deregistered, a lookup answers as the permanent
-- dictionary does: what a program registers is never found.
pub find_port-run :
    (calls : List Call) (scheme : Bytes)
    → find_port scheme (run calls []) ≡ find scheme scheme_port_dictionary
unfolding find_port find
find_port-run calls scheme =
    let absent = run-Permanent calls [] (λ key e. refl) scheme in ground arith
