-- ===== src/Networking/Held.antt =====
-- Source/networking.cpp: what the local socket of a query holds, and gives back.
use impact_socket_set.Base.{
  ℕ, if◌then◌else◌, Option, none, some, List, ◌∷◌, ◌≡◌, refl, ap, ◌∙◌, arith,
}
use impact_socket_set.Failure.{returns, throws, Ends}
use impact_socket_set.Socket.{
  release, make_socket, construct, move_assign, dtor, move, destroy, get, close,
}
use impact_socket_set.Delivery.{Kind}
use impact_socket_set.Networking.Local.{
  Descriptors, Local, assigned, make_local, destroy_local, close_local,
}

-- The descriptors that are open, and how many other things of the system are held.
abbrev pub Holds {ℓ} :
    {World : Type ℓ} → (World → List ℕ) → (World → ℕ) → World → List ℕ → ℕ → Type 0
Holds opened others world descriptors count = (opened world ≡ descriptors) × (others world ≡ count)

-- A descriptor that ::socket gives is open.
abbrev pub with_answer : Option ℕ → List ℕ → List ℕ
with_answer none descriptors = descriptors
with_answer (some d) descriptors = d ∷ descriptors

-- What is documented of ::socket and ::close: the one opens the descriptor that it gives, the other lets
-- a descriptor go, also where it reports a failure; neither does anything else.
pub record IsLawful {ℓ} {World : Type ℓ} (system : Descriptors World) (opened : World → List ℕ)
    (others : World → ℕ) : Type ℓ where
  pub opens :
      (kind : Kind) (w : World)
      → let (answer, after) = system.open_socket kind w in
        Holds opened others after (with_answer answer (opened w)) (others w)
  pub closes :
      (d : ℕ) (w : World)
      → Holds opened others (system.close_descriptor d w).1 (release d (opened w)) (others w)

module _ {ℓ} {World : Type ℓ} (system : Descriptors World) where
  -- The store of a handle that has this descriptor.
  abbrev pub store_of : Kind → ℕ → Local
  store_of kind d = (assigned system kind (some d)).1

module _ {ℓ} {World : Type ℓ} (system : Descriptors World) (opened : World → List ℕ)
    (others : World → ℕ) (law : IsLawful system opened others) where
  pub make_local-Ends :
      (kind : Kind) (w : World)
      → Ends
          (λ s v.
            (d : ℕ) × (s ≡ store_of system kind d)
            × Holds opened others v (d ∷ opened w) (others w))
          (λ v. Holds opened others v (opened w) (others w))
          (make_local system kind w)
  unfolding make_local assigned make_socket construct
  make_local-Ends kind w = made (system.open_socket kind w) (law.opens kind w)
    where
      made :
          (r : Option ℕ × World)
          → Holds opened others r.1 (with_answer r.0 (opened w)) (others w)
          → Ends
              (λ s v.
                (d : ℕ) × (s ≡ store_of system kind d)
                × Holds opened others v (d ∷ opened w) (others w))
              (λ v. Holds opened others v (opened w) (others w))
              (
                if (assigned system kind r.0).0
                    then throws (system.error_message r.1)
                    else returns (assigned system kind r.0).1,
                r.1,
              )
      made (none, v) h = h
      made (some d, v) h = (d, refl, h)

  released : (d : ℕ) (descriptors : List ℕ) → release d (d ∷ descriptors) ≡ descriptors
  released d descriptors = ground arith

  gone :
      (d : ℕ) (descriptors : List ℕ) (count : ℕ) (w : World)
      → Holds opened others w (d ∷ descriptors) count
      → Holds opened others (system.close_descriptor d w).1 descriptors count
  gone d descriptors count w (e, f) =
      let (g, h) = law.closes d w in (g ∙ ap (release d) e ∙ released d descriptors, h ∙ f)

  -- The destructor of a handle, and its close, give back what it has.
  pub destroy_local-Holds :
      (kind : Kind) (d : ℕ) (descriptors : List ℕ) (count : ℕ) (w : World)
      → Holds opened others w (d ∷ descriptors) count
      → Holds opened others (destroy_local system (store_of system kind d) w) descriptors count
  unfolding destroy_local get assigned make_socket construct move_assign dtor move destroy
  destroy_local-Holds kind d descriptors count w h = gone d descriptors count w h

  pub close_local-Holds :
      (kind : Kind) (d : ℕ) (descriptors : List ℕ) (count : ℕ) (w : World)
      → Holds opened others w (d ∷ descriptors) count
      → Holds opened others (close_local system (store_of system kind d) w).1 descriptors count
  unfolding close_local destroy_local get assigned make_socket construct move_assign dtor move
      destroy close
  close_local-Holds kind d descriptors count w h = gone d descriptors count w h
