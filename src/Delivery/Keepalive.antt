-- ===== src/Delivery/Keepalive.antt =====
-- Source/basic_socket_delivery.cpp: keepalive, on Linux.
use impact_socket_set.Base.{ℕ, ◌==◌, if◌then◌else◌, List, [], ◌∷◌, ◌++◌, Bytes, bit_or}
use impact_socket_set.Base.Int.{ℤ}
use impact_socket_set.Uri.Chars.{codes}
use impact_socket_set.Failure.{Action, pure, throw, lift, ◌>>=◌}
use impact_socket_set.Delivery.{
  Handle, int_value, SystemCall, set_option, Reply, System, KeepAlive, is_error,
}
use impact_socket_set.Delivery.Operations.{on_socket}

module _ {ℓ} {World : Type ℓ} (system : System World) where
  -- An option that keepalive sets, with its label in the message and its bit in `errors`.
  abbrev pub Attempt : Type 0
  Attempt = Bytes × ℕ × SystemCall

  -- The message so far and the errors so far, where the option cannot be set.
  abbrev pub noted : Attempt → Reply → Bytes × ℕ → World → Bytes × ℕ
  noted attempt reply (text, errors) world =
      if is_error reply.status
      then (
        text ++ (attempt.0 ++ (system.error_message world ++ (0x0A ∷ []))),
        bit_or errors attempt.1,
      )
      else (text, errors)

  unfoldable pub attempt_all : List Attempt → Bytes × ℕ → World → (Bytes × ℕ) × World
  attempt_all [] os world = (os, world)
  attempt_all (attempt ∷ rest) os world =
      let (reply, after) = system.perform attempt.2 world in
      attempt_all rest (noted attempt reply os after) after

  abbrev pub attempts : ℤ → KeepAlive → List Attempt
  attempts d options =
      (
        codes "[keepalive] ",
        1,
        set_option d system.names.sol_socket system.names.so_keepalive (int_value options.enabled),
      )
      ∷ (
        codes "[idle] ",
        8,
        set_option d system.names.ipproto_tcp system.names.tcp_keepidle
            (int_value options.idletime),
      )
      ∷ (
        codes "[interval] ",
        2,
        set_option d system.names.ipproto_tcp system.names.tcp_keepintvl
            (int_value options.interval),
      )
      ∷ (
        codes "[count] ",
        4,
        set_option d system.names.ipproto_tcp system.names.tcp_keepcnt (int_value options.retries),
      )
      ∷ []

  abbrev pub reported : Bytes × ℕ → Action World (Unit {0})
  reported (text, errors) = if errors == 0 then pure tt else throw text

  unfoldable pub keepalive : Handle → KeepAlive → Action World (Unit {0})
  keepalive handle options =
      on_socket system handle λ d kind. lift (attempt_all (attempts d options) ([], 0)) >>= reported
