-- ===== src/Delivery/Lists.antt =====
-- Source/generic.cpp: fill_address gives back the list of addresses that the system has made.
use impact_socket_set.Base.{
  ℕ, ◌+◌, ◌-◌, Bool, true, false, not, ◌&&◌, ◌||◌, ◌==◌, if◌then◌else◌, Bytes, ◌≡◌, inl, inr, arith,
  Bool-cases,
}
use impact_socket_set.Base.Int.{ℤ, pos, negsuc, ==ℤ}
use impact_socket_set.Uri.Print.{to_string}
use impact_socket_set.Delivery.{Kind, resolve, free_list, Reply, System}
use impact_socket_set.Delivery.Operations.{on_found, fill_address}

-- The family of an address that fill_address can copy.
abbrev pub is_supported {ℓ} : {World : Type ℓ} → System World → ℕ → Bool
is_supported system family = family == system.names.inet || family == system.names.inet6

-- What the system documents of getaddrinfo and freeaddrinfo, by the number of lists that it has made
-- and not got back: a call with the status 0 makes one.
pub record IsLawful {ℓ} {World : Type ℓ} (system : System World) (made : World → ℕ) : Type ℓ where
  pub resolves :
      (kind : Kind) (address port : Bytes) (w : World)
      → let (reply, after) = system.perform (resolve kind address port) w in
        made after ≡ made w + (if ==ℤ reply.status (pos 0) then 1 else 0)
  pub frees : (w : World) → made (system.perform free_list w).1 ≡ made w - 1
  pub fails : ==ℤ system.names.eai_system (pos 0) ≡ false

==ℤ-both : (a b c : ℤ) → ==ℤ a b ≡ true → ==ℤ a c ≡ true → ==ℤ b c ≡ true
==ℤ-both (pos a) (pos b) (pos c) e f = ground (arith, e, f)
==ℤ-both (pos a) (pos b) (negsuc c) e f = f
==ℤ-both (pos a) (negsuc b) c e f = cc
==ℤ-both (negsuc a) (pos b) c e f = cc
==ℤ-both (negsuc a) (negsuc b) (pos c) e f = f
==ℤ-both (negsuc a) (negsuc b) (negsuc c) e f = ground (arith, e, f)

module _ {ℓ} {World : Type ℓ} (system : System World) (made : World → ℕ)
    (law : IsLawful system made) where
  -- The list that is left behind.
  abbrev pub leaked : Reply → ℕ
  leaked reply = if ==ℤ reply.status (pos 0) && not (is_supported system reply.family) then 1 else 0

  on_found-made :
      (before : ℕ) (reply : Reply) (w : World)
      → made w ≡ before + (if ==ℤ reply.status (pos 0) then 1 else 0)
      → made (on_found system reply w).1 ≡ before + leaked reply
  on_found-made before reply w e = elim (Bool-cases (==ℤ reply.status system.names.eai_system)) [
    | inl a ↦ elim (Bool-cases (==ℤ reply.status (pos 0))) [
      | inl b ↦
          absurd
            (ground (arith, ==ℤ-both reply.status system.names.eai_system (pos 0) a b, law.fails))
      | inr b ↦ rw (a, b) (ground (arith, e, b))
    ]
    | inr a ↦ elim (Bool-cases (==ℤ reply.status (pos 0))) [
      | inl b ↦ elim (Bool-cases (reply.family == system.names.inet)) [
        | inl c ↦ rw (a, b, c) (ground (arith, e, b, law.frees w))
        | inr c ↦ elim (Bool-cases (reply.family == system.names.inet6)) [
          | inl d ↦ rw (a, b, c, d) (ground (arith, e, b, law.frees w))
          | inr d ↦ rw (a, b, c, d) (ground (arith, e, b))
        ]
      ]
      | inr b ↦ rw (a, b) (ground (arith, e, b))
    ]
  ]

  -- However `fill_address` ends, it has given the list of addresses back, but for one case: where
  -- the system has found an address that is neither IPv4 nor IPv6, the list is never freed.
  pub fill_address-made :
      (kind : Kind) (address : Bytes) (port : ℕ) (w : World)
      → let (reply, _) = system.perform (resolve kind address (to_string (pos port))) w in
        made (fill_address system kind address port w).1 ≡ made w + leaked reply
  unfolding fill_address
  fill_address-made kind address port w =
      let r = system.perform (resolve kind address (to_string (pos port))) w in
      on_found-made (made w) r.0 r.1 (law.resolves kind address (to_string (pos port)) w)
