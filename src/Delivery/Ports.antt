-- ===== src/Delivery/Ports.antt =====
-- Source/basic_socket_delivery.cpp and Source/basic_socket_misc.cpp: the port and the address that a
-- socket tells.
use impact_socket_set.Base.{
  ℕ, ◌+◌, ◌<◌, true, false, some, [], ◌∷◌, ◌++◌, Bytes, take, get_or, replicate, ◌≡◌, ◌≢◌, sym,
  subst, ap, ◌∙◌, arith, inl, inr, Bool-cases,
}
use impact_socket_set.Base.Int.{ℤ, pos}
use impact_socket_set.Failure.{returns, throws, pure, continue}
use impact_socket_set.Socket.{Info}
use impact_socket_set.Delivery.{
  Kind, SystemCall, bind_to, socket_name, peer_name, System, is_error, descriptor_of,
}
use impact_socket_set.Delivery.Operations.{
  call, any_address, bind_port, structure, port_in, text_in, local_port, peer_address,
}

-- What the system documents of bind and getsockname: once an address with a port is bound, the name
-- of the socket is that address.
pub record NamesBound {ℓ} {World : Type ℓ} (system : System World) : Type ℓ where
  pub names_bound :
      (d : ℤ) (a : Bytes) (w : World)
      → is_error (system.perform (bind_to d a 16) w).0.status ≡ false
      → get_or a 2 0 + get_or a 3 0 ≢ 0
      → let (reply, _) = system.perform (socket_name d 16) (system.perform (bind_to d a 16) w).1 in
        (reply.status ≡ pos 0) × (reply.address ≡ a)

module _ {ℓ} {World : Type ℓ} (system : System World) where
  call-returns :
      (c : SystemCall) (w : World)
      → is_error (system.perform c w).0.status ≡ false
      → call system c w ≡ (returns (system.perform c w).0, (system.perform c w).1)
  call-returns c w ok = let (reply, after) = system.perform c w in ground (arith, ok)

  call-throws :
      (c : SystemCall) (w : World)
      → is_error (system.perform c w).0.status ≡ true
      → call system c w
        ≡ (throws (system.error_message (system.perform c w).1), (system.perform c w).1)
  call-throws c w bad = ground (arith, bad)

  -- What is told of a port in network order.
  port_in-any_address :
      (f g port : ℕ)
      → port < 65536
      → system.family_bytes system.names.inet ≡ f ∷ g ∷ []
      → port_in system (take 16 (any_address system port ++ replicate 16 system.unwritten)) ≡ port
  port_in-any_address f g port small two = rw two (omega (arith, small))

  port_told :
      (f g port : ℕ)
      → port < 65536
      → 0 < port
      → system.family_bytes system.names.inet ≡ f ∷ g ∷ []
      → get_or (any_address system port) 2 0 + get_or (any_address system port) 3 0 ≢ 0
  port_told f g port small some_port two = rw two (omega (arith, small, some_port))

  -- A port that is not 0 and that `bind` has bound is the port that `local_port` tells, if the
  -- system names the address that is bound and a family takes two bytes.
  pub local_port-bind_port :
      (law : NamesBound system) (info : Info Kind) (port f g : ℕ) (w after : World)
      → 0 < port
      → port < 65536
      → system.family_bytes system.names.inet ≡ f ∷ g ∷ []
      → bind_port system (some info) port w ≡ (returns tt, after)
      → (local_port system (some info) after).0 ≡ returns port
  unfolding bind_port local_port
  local_port-bind_port law info port f g w after some_port small two bound =
      let d = descriptor_of info in
      let a = any_address system port in
      let bind = bind_to d a 16 in
      let first = system.perform bind w in
      let second = system.perform (socket_name d 16) first.1 in
      elim (Bool-cases (is_error first.0.status)) [
        | inl bad ↦
            let thrown = ap (continue (λ _. pure {World = World} tt)) (call-throws bind w bad) in
            let clash = ap (λ r. r.0) (sym thrown ∙ bound) in cc
        | inr ok ↦
            let done = ap (continue (λ _. pure {World = World} tt)) (call-returns bind w ok) in
            let same : first.1 ≡ after = ap (λ r. r.1) (sym done ∙ bound) in
            let (fine, named) = law.names_bound d a w ok (port_told f g port small some_port two) in
            let told = call-returns (socket_name d 16) first.1 (ap is_error fine) in
            subst (λ v. (local_port system (some info) v).0 ≡ returns port) same
              (ap
                  (λ r.
                    (continue
                      (λ reply. pure {World = World} (port_in system (structure system reply)))
                      r).0)
                  told
                ∙ ap (λ x. returns (port_in system (take 16 (x ++ replicate 16 system.unwritten))))
                    named
                ∙ ap returns (port_in-any_address f g port small two))
      ]

  -- For a peer with an IPv6 address, `peer_address` answers with a text of its flow information, the
  -- four bytes where an IPv4 address would be, whatever the address is.
  pub peer_address_blind :
      (info : Info Kind) (p0 p1 p2 p3 f0 f1 f2 f3 : ℕ) (in6_addr : Bytes) (w : World)
      → let (reply, after) = system.perform (peer_name (descriptor_of info) 16) w in
        is_error reply.status ≡ false
        → reply.address ≡ p0 ∷ p1 ∷ p2 ∷ p3 ∷ f0 ∷ f1 ∷ f2 ∷ f3 ∷ in6_addr
        → (peer_address system (some info) w).0
          ≡ returns (system.inet_ntoa (f0 ∷ f1 ∷ f2 ∷ f3 ∷ []))
  unfolding peer_address
  peer_address_blind info p0 p1 p2 p3 f0 f1 f2 f3 in6_addr w ok named =
      let told = call-returns (peer_name (descriptor_of info) 16) w ok in
      ap
        (λ r.
          (continue (λ reply. pure {World = World} (text_in system (structure system reply))) r).0)
        told
      ∙ ap (λ x. returns (text_in system (take 16 (x ++ replicate 16 system.unwritten)))) named
