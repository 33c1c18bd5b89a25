-- ===== src/Delivery/Freed.antt =====
-- Source/basic_socket_delivery.cpp and Source/basic_socket_misc.cpp: what every operation does
-- with the lists of addresses.
use impact_socket_set.Base.{
  ℕ, ◌+◌, Bool, true, false, not, ◌&&◌, if◌then◌else◌, ap, ◌==◌, Option, none, some, List, [], ◌∷◌,
  Bytes, All, ◌≡◌, refl, ◌∙◌, arith, inl, inr, Bool-cases,
}
use impact_socket_set.Base.Int.{ℤ, pos, ==ℤ}
use impact_socket_set.Uri.Print.{to_string}
use impact_socket_set.Failure.{
  Result, returns, throws, continue, Action, pure, lift, ◌>>=◌, ◌>>◌, Keeps, Keeps-bind,
}
use impact_socket_set.Delivery.{
  Kind, Handle, SystemCall, resolve, free_list, Reply, System, is_error, set_option, int_value,
  int_of,
}
use impact_socket_set.Delivery.Operations.{
  call, on_socket, fill_address, reuse_port, bind_port, bind_text, bind_address, connect, listen,
  shutdown, group, send, sendto, recv, recvfrom, local_address, local_port, peer_address, peer_port,
  broadcast, multicast_ttl, reuse_address,
}
use impact_socket_set.Delivery.Keepalive.{
  Attempt, noted, attempt_all, attempts, reported, keepalive,
}
use impact_socket_set.Delivery.Catalog.{
  Operation, binds_port, binds_text, binds_address, connects, listens, shuts_down, groups,
  keeps_alive, sends, sends_to, receives, receives_from, tells_address, tells_port,
  tells_peer_address, tells_peer_port, broadcasts, sets_ttl, reuses_address, operate,
}
use impact_socket_set.Delivery.Lists.{is_supported, IsLawful, fill_address-made}

abbrev pub is_listing : SystemCall → Bool
is_listing (resolve kind address port) = true
is_listing free_list = true
is_listing _ = false

-- The calls but getaddrinfo and freeaddrinfo make no list and give none back.
pub record IsQuiet {ℓ} {World : Type ℓ} (system : System World) (made : World → ℕ) : Type ℓ where
  pub others :
      (c : SystemCall) (w : World) → is_listing c ≡ false → made (system.perform c w).1 ≡ made w

-- The text and the port that an operation has looked up.
abbrev lookup_of : Operation → Option (Bytes × ℕ)
lookup_of (binds_text a p) = some (a, p)
lookup_of (connects p a) = some (a, p)
lookup_of (sends_to b p a f) = some (a, p)
lookup_of _ = none

module _ {ℓ} {World : Type ℓ} (system : System World) where
  abbrev lost_by_lookup : Kind → Option (Bytes × ℕ) → World → ℕ
  lost_by_lookup kind none w = 0
  lost_by_lookup kind (some (address, port)) w =
      let reply = (system.perform (resolve kind address (to_string (pos port))) w).0 in
      if ==ℤ reply.status (pos 0) && not (is_supported system reply.family) then 1 else 0

  -- The lists that an operation loses: one where the system finds an address of another family than
  -- IPv4 and IPv6, else none.
  abbrev pub lost : Operation → Handle → World → ℕ
  lost operation none w = 0
  lost operation (some info) w = lost_by_lookup info.kind (lookup_of operation) w

module _ {ℓ} {World : Type ℓ} (system : System World) (made : World → ℕ)
    (law : IsLawful system made) (quiet : IsQuiet system made) where
  call-Keeps : (c : SystemCall) → is_listing c ≡ false → Keeps made (call system c)
  call-Keeps c other w =
      let (reply, after) = system.perform c w in
      elim (Bool-cases (is_error reply.status)) [
        | inl e ↦ rw e (quiet.others c w other)
        | inr e ↦ rw e (quiet.others c w other)
      ]

  on_socket-Keeps :
      {A : Type 0} (h : Handle) (f : ℤ → Kind → Action World A)
      → ((d : ℤ) (kind : Kind) → Keeps made (f d kind))
      → Keeps made (on_socket system h f)
  on_socket-Keeps none f k w = refl
  on_socket-Keeps (some info) f k w = k _ _ w

  -- A call, and something that calls nothing.
  one :
      {A : Type 0} (c : SystemCall) (f : Reply → A)
      → is_listing c ≡ false
      → Keeps made (call system c >>= λ r. pure (f r))
  one c f other = Keeps-bind made (call system c) _ (call-Keeps c other) λ r w. refl

  bind_made :
      {A B : Type 0} (m : Action World A) (f : A → Action World B) (w : World) (n : ℕ)
      → made (m w).1 ≡ n
      → ((a : A) → Keeps made (f a))
      → made ((m >>= f) w).1 ≡ n
  bind_made {A = A} m f w n e next = go (m w) e
    where
      go : (r : Result A × World) → made r.1 ≡ n → made (continue f r).1 ≡ n
      go (returns a, v) e = next a v ∙ e
      go (throws message, v) e = e

  found_then :
      {A : Type 0} (kind : Kind) (address : Bytes) (port : ℕ) (f : Bytes × ℕ → Action World A)
      (w : World)
      → ((r : Bytes × ℕ) → Keeps made (f r))
      → made ((fill_address system kind address port >>= f) w).1
        ≡ made w + lost_by_lookup system kind (some (address, port)) w
  found_then kind address port f w next =
      bind_made (fill_address system kind address port) f w _
        (fill_address-made system made law kind address port w) next

  then_nothing_made :
      {A : Type 0} (m : Action World A) (w : World) (n : ℕ)
      → made (m w).1 ≡ n
      → made ((m >> pure tt) w).1 ≡ n
  then_nothing_made m w n e = bind_made m _ w n e λ a v. refl

  attempt_all-made :
      (tries : List (Attempt system)) (os : Bytes × ℕ) (w : World)
      → All (λ a. is_listing a.2 ≡ false) tries
      → made (attempt_all system tries os w).1 ≡ made w
  unfolding attempt_all
  attempt_all-made [] os w others = refl
  attempt_all-made (a ∷ rest) os w (other, others) =
      let (reply, after) = system.perform a.2 w in
      attempt_all-made rest (noted system a reply os after) after others ∙ quiet.others a.2 w other

  reported-Keeps : (os : Bytes × ℕ) → Keeps made (reported system os)
  reported-Keeps (text, errors) w = elim (Bool-cases (errors == 0)) [
    | inl e ↦ rw e refl
    | inr e ↦ rw e refl
  ]

  reuse_port-Keeps :
      (d : ℤ) (enabled : Bool) (option : Option ℕ) → Keeps made (reuse_port system d enabled option)
  reuse_port-Keeps d enabled none = λ w. refl
  reuse_port-Keeps d enabled (some option) = one _ _ refl

  then_nothing : {A : Type 0} (m : Action World A) → Keeps made m → Keeps made (m >> pure tt)
  then_nothing m kept = Keeps-bind made m _ kept λ a w. refl

  -- Operations that look nothing up.
  plain-Keeps :
      (operation : Operation) (h : Handle)
      → lookup_of operation ≡ none
      → Keeps made (operate system operation h)
  unfolding operate bind_port bind_text bind_address connect listen shutdown group keepalive send
      sendto recv recvfrom local_address local_port peer_address peer_port broadcast multicast_ttl
      reuse_address
  plain-Keeps (binds_port p) h e = on_socket-Keeps h _ λ d k. one _ _ refl
  plain-Keeps (binds_text a p) h e = cc
  plain-Keeps (binds_address a) h e = on_socket-Keeps h _ λ d k. one _ _ refl
  plain-Keeps (connects p a) h e = cc
  plain-Keeps (listens b) h e = on_socket-Keeps h _ λ d k. one _ _ refl
  plain-Keeps (shuts_down c) h e = on_socket-Keeps h _ λ d k. one _ _ refl
  plain-Keeps (groups n m) h e = on_socket-Keeps h _ λ d k. one _ _ refl
  plain-Keeps (keeps_alive o) h e = on_socket-Keeps h _ λ d k.
      Keeps-bind made (lift (attempt_all system (attempts system d o) ([], 0))) (reported system)
        (λ w. attempt_all-made (attempts system d o) ([], 0) w (refl, (refl, (refl, (refl, tt)))))
        reported-Keeps
  plain-Keeps (sends b f) h e =
      then_nothing (send system h b f) (on_socket-Keeps h _ λ d k. one _ _ refl)
  plain-Keeps (sends_to b p a f) h e = cc
  plain-Keeps (receives c f) h e =
      then_nothing (recv system h c f) (on_socket-Keeps h _ λ d k. one _ _ refl)
  plain-Keeps (receives_from c f) h e =
      then_nothing (recvfrom system h c f) (on_socket-Keeps h _ λ d k. one _ _ refl)
  plain-Keeps tells_address h e =
      then_nothing (local_address system h) (on_socket-Keeps h _ λ d k. one _ _ refl)
  plain-Keeps tells_port h e =
      then_nothing (local_port system h) (on_socket-Keeps h _ λ d k. one _ _ refl)
  plain-Keeps tells_peer_address h e =
      then_nothing (peer_address system h) (on_socket-Keeps h _ λ d k. one _ _ refl)
  plain-Keeps tells_peer_port h e =
      then_nothing (peer_port system h) (on_socket-Keeps h _ λ d k. one _ _ refl)
  plain-Keeps (broadcasts b) h e = on_socket-Keeps h _ λ d k. one _ _ refl
  plain-Keeps (sets_ttl t) h e = on_socket-Keeps h _ λ d k. one _ _ refl
  plain-Keeps (reuses_address b) h e = on_socket-Keeps h _ λ d k.
      let c : SystemCall =
        set_option d system.names.sol_socket system.names.so_reuseaddr (int_value (int_of b)) in
      Keeps-bind made (call system c) (λ r. reuse_port system d b system.names.so_reuseport)
        (call-Keeps c refl) λ r. reuse_port-Keeps d b system.names.so_reuseport

  nothing_lost :
      (operation : Operation) (h : Handle) (w : World)
      → lookup_of operation ≡ none
      → lost system operation h w ≡ 0
  nothing_lost operation none w e = refl
  nothing_lost operation (some info) w e = ap (λ l. lost_by_lookup system info.kind l w) e

  plain_made :
      (operation : Operation) (h : Handle) (w : World)
      → lookup_of operation ≡ none
      → made (operate system operation h w).1 ≡ made w + lost system operation h w
  plain_made operation h w e =
      omega (arith, plain-Keeps operation h e w, nothing_lost operation h w e)

  -- Every operation, however it ends, has given back each list of addresses that the system has made
  -- for it, but for one case: where getaddrinfo succeeds with an address that is neither IPv4 nor IPv6,
  -- exactly one list is lost.
  pub operate-made :
      (operation : Operation) (h : Handle) (w : World)
      → made (operate system operation h w).1 ≡ made w + lost system operation h w
  unfolding operate bind_text connect sendto
  operate-made (binds_text a p) none w = omega arith
  operate-made (binds_text a p) (some info) w = found_then info.kind a p _ w λ r. one _ _ refl
  operate-made (connects p a) none w = omega arith
  operate-made (connects p a) (some info) w = found_then info.kind a p _ w λ r. one _ _ refl
  operate-made (sends_to b p a f) none w = omega arith
  operate-made (sends_to b p a f) (some info) w =
      then_nothing_made (sendto system (some info) b p a f) w _
        (found_then info.kind a p _ w λ r. one _ _ refl)
  operate-made (binds_port p) h w = plain_made (binds_port p) h w refl
  operate-made (binds_address a) h w = plain_made (binds_address a) h w refl
  operate-made (listens b) h w = plain_made (listens b) h w refl
  operate-made (shuts_down c) h w = plain_made (shuts_down c) h w refl
  operate-made (groups n m) h w = plain_made (groups n m) h w refl
  operate-made (keeps_alive o) h w = plain_made (keeps_alive o) h w refl
  operate-made (sends b f) h w = plain_made (sends b f) h w refl
  operate-made (receives c f) h w = plain_made (receives c f) h w refl
  operate-made (receives_from c f) h w = plain_made (receives_from c f) h w refl
  operate-made tells_address h w = plain_made tells_address h w refl
  operate-made tells_port h w = plain_made tells_port h w refl
  operate-made tells_peer_address h w = plain_made tells_peer_address h w refl
  operate-made tells_peer_port h w = plain_made tells_peer_port h w refl
  operate-made (broadcasts e) h w = plain_made (broadcasts e) h w refl
  operate-made (sets_ttl t) h w = plain_made (sets_ttl t) h w refl
  operate-made (reuses_address e) h w = plain_made (reuses_address e) h w refl
