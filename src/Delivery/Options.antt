-- ===== src/Delivery/Options.antt =====
-- Source/basic_socket_delivery.cpp: what keepalive reports.
use impact_socket_set.Base.{
  ℕ, ◌<◌, Bool, true, false, not, ◌&&◌, ltb, ◌==◌, if◌then◌else◌, some, List, [], ◌∷◌, ◌++◌, Bytes,
  bit_or, All, append_assoc, append-nil, ◌≡◌, refl, sym, ◌∙◌, arith, inl, inr, Bool-cases,
}
use impact_socket_set.Base.Table.{holds_below, holds_below-at}
use impact_socket_set.Base.Int.{ℤ}
use impact_socket_set.Uri.Chars.{codes}
use impact_socket_set.Failure.{returns, throws}
use impact_socket_set.Socket.{Info}
use impact_socket_set.Delivery.{
  Kind, System, KeepAlive, SystemCall, set_option, int_value, is_error, descriptor_of,
}
use impact_socket_set.Delivery.Keepalive.{
  Attempt, noted, attempt_all, attempts, reported, keepalive,
}

-- A bit of the errors, which has four of them: with it the errors are not zero.
bit_right : ℕ → ℕ → Bool
bit_right bit errors = ltb (bit_or errors bit) 16 && not (bit_or errors bit == 0)

abbrev IsBit : ℕ → Type 0
IsBit bit = holds_below (bit_right bit) 16 ≡ true

module _ {ℓ} {World : Type ℓ} (system : System World) where
  -- Every option is attempted, whatever has come of those before it.
  abbrev pub after_all : List (Bytes × SystemCall) → World → World
  after_all [] w = w
  after_all (a ∷ rest) w = after_all rest (system.perform a.1 w).1

  -- The lines of the options that cannot be set, in their order.
  abbrev pub lines : List (Bytes × SystemCall) → World → Bytes
  lines [] w = []
  lines (a ∷ rest) w =
      let (reply, after) = system.perform a.1 w in
      (if is_error reply.status then a.0 ++ (system.error_message after ++ (0x0A ∷ [])) else [])
      ++ lines rest after

  abbrev pub all_set : List (Bytes × SystemCall) → World → Bool
  all_set [] w = true
  all_set (a ∷ rest) w =
      let (reply, after) = system.perform a.1 w in not (is_error reply.status) && all_set rest after

  -- The options without their bits.
  abbrev shown : List (Attempt system) → List (Bytes × SystemCall)
  shown [] = []
  shown (a ∷ rest) = (a.0, a.2) ∷ shown rest

  attempt_all-world :
      (tries : List (Attempt system)) (os : Bytes × ℕ) (w : World)
      → (attempt_all system tries os w).1 ≡ after_all (shown tries) w
  unfolding attempt_all
  attempt_all-world [] os w = refl
  attempt_all-world (a ∷ rest) os w =
      let (reply, after) = system.perform a.2 w in
      attempt_all-world rest (noted system a reply os after) after

  attempt_all-text :
      (tries : List (Attempt system)) (os : Bytes × ℕ) (w : World)
      → (attempt_all system tries os w).0.0 ≡ os.0 ++ lines (shown tries) w
  unfolding attempt_all
  attempt_all-text [] os w = sym (append-nil os.0)
  attempt_all-text (a ∷ rest) os w =
      let (reply, after) = system.perform a.2 w in
      let line = a.0 ++ (system.error_message after ++ (0x0A ∷ [])) in
      attempt_all-text rest (noted system a reply os after) after
      ∙ elim (Bool-cases (is_error reply.status)) [
        | inl e ↦ rw e (append_assoc os.0 line (lines (shown rest) after))
        | inr e ↦ rw e refl
      ]

  attempt_all-errors :
      (tries : List (Attempt system)) (os : Bytes × ℕ) (w : World)
      → All (λ a. IsBit a.1) tries
      → os.1 < 16
      → ((attempt_all system tries os w).0.1 == 0) ≡ ((os.1 == 0) && all_set (shown tries) w)
  unfolding attempt_all bit_right
  attempt_all-errors [] os w bits small = ground arith
  attempt_all-errors (a ∷ rest) os w (bit, bits) small =
      let (reply, after) = system.perform a.2 w in
      let os' : Bytes × ℕ = noted system a reply os after in
      let right : bit_right a.1 os.1 ≡ true =
        holds_below-at (bit_right a.1) 16 bit os.1 (omega (arith, small)) in
      elim (Bool-cases (is_error reply.status)) [
        | inl e ↦
            let masked : os'.1 ≡ bit_or os.1 a.1 = rw e refl in
            let less : os'.1 < 16 = ground (arith, right, masked) in
            ground (arith, right, masked, e, attempt_all-errors rest os' after bits less)
        | inr e ↦
            let kept : os'.1 ≡ os.1 = rw e refl in
            let less : os'.1 < 16 = omega (arith, kept, small) in
            ground (arith, kept, e, attempt_all-errors rest os' after bits less)
      ]

  decided :
      (text text' : Bytes) (errors : ℕ) (set : Bool) (w w' : World)
      → text ≡ text'
      → (errors == 0) ≡ set
      → w ≡ w'
      → reported system (text, errors) w ≡ (if set then returns tt else throws text', w')
  decided text text' errors true w w' e f g = rw (f, g) refl
  decided text text' errors false w w' e f g = rw (e, f, g) refl

  -- The four options, with the label of each.
  abbrev pub four : ℤ → KeepAlive → List (Bytes × SystemCall)
  four d options =
      let n = system.names in
      (codes "[keepalive] ", set_option d n.sol_socket n.so_keepalive (int_value options.enabled))
      ∷ (codes "[idle] ", set_option d n.ipproto_tcp n.tcp_keepidle (int_value options.idletime))
      ∷ (
        codes "[interval] ",
        set_option d n.ipproto_tcp n.tcp_keepintvl (int_value options.interval),
      )
      ∷ (codes "[count] ", set_option d n.ipproto_tcp n.tcp_keepcnt (int_value options.retries))
      ∷ []

  -- `keepalive` attempts the four options SO_KEEPALIVE, TCP_KEEPIDLE, TCP_KEEPINTVL and TCP_KEEPCNT with
  -- the values given for them, whatever comes of each; it returns if all of them are set, and otherwise
  -- throws one line for each that is not, in their order.
  pub keepalive-reports :
      (info : Info Kind) (options : KeepAlive) (w : World)
      → let tries = four (descriptor_of info) options in
        keepalive system (some info) options w
        ≡ (if all_set tries w then returns tt else throws (lines tries w), after_all tries w)
  unfolding keepalive holds_below bit_right
  keepalive-reports info options w =
      let tries = attempts system (descriptor_of info) options in
      let left = attempt_all system tries ([], 0) w in
      let bits : All (λ a. IsBit a.1) tries = (refl, (refl, (refl, (refl, tt)))) in
      let mask : (left.0.1 == 0) ≡ all_set (shown tries) w =
        attempt_all-errors tries ([], 0) w bits (omega arith) in
      let text : left.0.0 ≡ lines (shown tries) w = attempt_all-text tries ([], 0) w in
      let world : left.1 ≡ after_all (shown tries) w = attempt_all-world tries ([], 0) w in
      decided left.0.0 (lines (shown tries) w) left.0.1 (all_set (shown tries) w) left.1
        (after_all (shown tries) w) text mask world
