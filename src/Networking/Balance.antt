-- ===== src/Networking/Balance.antt =====
-- Source/networking.cpp: find_default_route gives every descriptor back.
use impact_socket_set.Base.{
  ℕ, ◌≤◌, ◌<◌, Option, none, some, List, ◌∷◌, Bytes, length, ◌≡◌, true, false,
}
use impact_socket_set.Base.Int.{ℤ}
use impact_socket_set.Failure.{Result}
use impact_socket_set.Delivery.{send_bytes, receive, is_error}
use impact_socket_set.Networking.Local.{Local}
use impact_socket_set.Networking.Held
use impact_socket_set.Networking.Routes.{Host, Route}

-- What the system documents of its calls: ::socket and ::close as in Held; ::send and ::recv open and
-- close nothing, ::recv gives at most the bytes asked for, and NLMSG_OK accepts no empty message.
pub record IsLawful {ℓ} {World : Type ℓ} (host : Host World) (opened : World → List ℕ)
    : Type ℓ where
  pub descriptors : Held.IsLawful host.descriptors opened (λ w. 0)
  pub sends :
      (d : ℤ) (bytes : Bytes) (flags : ℕ) (w : World)
      → opened (host.system.perform (send_bytes d bytes flags) w).1 ≡ opened w
  pub receives :
      (d : ℤ) (count flags : ℕ) (w : World)
      → opened (host.system.perform (receive d count flags) w).1 ≡ opened w
  pub asked :
      (d : ℤ) (count flags : ℕ) (w : World)
      → let (reply, _) = host.system.perform (receive d count flags) w in
        is_error reply.status ≡ false → length reply.bytes ≤ count
  pub whole : (chunk : Bytes) → host.layout.message_ok chunk ≡ true → 0 < length chunk

module _ {ℓ} {World : Type ℓ} (host : Host World) (opened : World → List ℕ)
    (law : IsLawful host opened) where
  -- The call has ended, and has left the descriptors open that were.
  abbrev pub IsBalanced : World → Option (Result Route) × World → Type 0
  IsBalanced before (none, after) = ⊥
  IsBalanced before (some _, after) = opened after ≡ opened before

  -- The handle has this descriptor, and it is open.
  abbrev Has : World → ℕ → World → Type 0
  Has before d world = opened world ≡ d ∷ opened before
