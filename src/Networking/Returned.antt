-- ===== src/Networking/Returned.antt =====
-- Source/networking.cpp: find_network_interfaces gives back its descriptors and the list of links.
use impact_socket_set.Base.{
  ℕ, suc, ◌-◌, Option, none, some, List, [], ◌∷◌, Bytes, ◌≡◌, refl, sym, ◌∙◌, subst, arith,
}
use impact_socket_set.Base.Int.{ℤ}
use impact_socket_set.Failure.{Result, returns, throws, Ends, Ends-bind, ◌>>=◌}
use impact_socket_set.Networking.Local.{descriptor, make_local, close_local}
use impact_socket_set.Networking.Held.{Holds, store_of, make_local-Ends, close_local-Holds}
use impact_socket_set.Networking.Held
use impact_socket_set.Networking.Interfaces.{
  Links, Link, Interface, token_of, with_hardware, set_interface_type_mac, traverse_links, on_links,
  find_network_interfaces,
}

-- What the system documents of its calls, by the descriptors that are open and the number of lists of
-- links that it has given and not got back: ::socket and ::close as in Held, getifaddrs gives a list
-- where it succeeds, freeifaddrs takes one back, and the ioctl does neither.
pub record IsLawful {ℓ} {World : Type ℓ} (links : Links World) (opened : World → List ℕ)
    (lists : World → ℕ) : Type ℓ where
  pub descriptors : Held.IsLawful links.descriptors opened lists
  pub asks :
      (d : ℤ) (name : Bytes) (w : World)
      → Holds opened lists (links.hardware d name w).1 (opened w) (lists w)
  pub gives :
      (w : World) (found : List Link)
      → (links.get_links w).0 ≡ some found
      → Holds opened lists (links.get_links w).1 (opened w) (suc (lists w))
  pub refuses :
      (w : World)
      → (links.get_links w).0 ≡ none
      → Holds opened lists (links.get_links w).1 (opened w) (lists w)
  pub frees : (w : World) → Holds opened lists (links.free_links w) (opened w) (lists w - 1)

module _ {ℓ} {World : Type ℓ} (links : Links World) (opened : World → List ℕ) (lists : World → ℕ)
    (law : IsLawful links opened lists) where
  -- A call has ended, returning or throwing, and this is held.
  abbrev HasReturned : {A : Type 0} → List ℕ → ℕ → Result A × World → Type 0
  HasReturned l n = Ends (λ a w. Holds opened lists w l n) (λ w. Holds opened lists w l n)

  either :
      {A : Type 0} (r : Result A × World) (l : List ℕ) (n : ℕ)
      → Holds opened lists r.1 l n
      → HasReturned l n r
  either (returns a, w) l n h = h
  either (throws m, w) l n h = h

  with_hardware-HasReturned :
      (token : Interface) (answer : Option (ℕ × Bytes)) (w : World) (l : List ℕ) (n : ℕ)
      → Holds opened lists w l n
      → HasReturned l n (with_hardware links token answer w)
  with_hardware-HasReturned token none w l n h = h
  with_hardware-HasReturned token (some (code, bytes)) w l n h = h

  closed_and_told :
      (token : Interface) (d : ℕ) (w : World) (l : List ℕ) (n : ℕ)
      → Holds opened lists w (d ∷ l) n
      → let store = store_of links.descriptors links.inet_kind d in
        let asked = links.hardware (descriptor links.descriptors store) token.name w in
        HasReturned l n
          ((close_local links.descriptors store >>= λ _. with_hardware links token asked.0) asked.1)
  closed_and_told token d w l n (e, f) =
      let store = store_of links.descriptors links.inet_kind d in
      let fd = descriptor links.descriptors store in
      let asked = links.hardware fd token.name w in
      let (g, h) = law.asks fd token.name w in
      let good : Unit {0} → World → Type 0 = λ a v. Holds opened lists v l n in
      Ends-bind good (λ a v. Holds opened lists v l n) (λ v. Holds opened lists v l n)
        (close_local links.descriptors store) _ asked.1
        (either _ l n (
          close_local-Holds links.descriptors opened lists law.descriptors links.inet_kind d l n
            asked.1 (g ∙ e, h ∙ f)))
        λ b v held. with_hardware-HasReturned token asked.0 v l n held

  set_interface_type_mac-HasReturned :
      (token : Interface) (world : World)
      → HasReturned (opened world) (lists world) (set_interface_type_mac links token world)
  unfolding set_interface_type_mac
  set_interface_type_mac-HasReturned token world =
      let l = opened world in
      let n = lists world in
      Ends-bind
        (λ s v.
          (d : ℕ) × (s ≡ store_of links.descriptors links.inet_kind d)
          × Holds opened lists v (d ∷ l) n)
        (λ a v. Holds opened lists v l n) (λ v. Holds opened lists v l n)
        (make_local links.descriptors links.inet_kind) _ world
        (make_local-Ends links.descriptors opened lists law.descriptors links.inet_kind world)
        λ s w (d, same, held).
          subst
            (λ store.
              let asked = links.hardware (descriptor links.descriptors store) token.name w in
              HasReturned l n (
                (close_local links.descriptors store >>= λ _. with_hardware links token asked.0)
                  asked.1))
            (sym same) (closed_and_told token d w l n held)

  traverse_links-HasReturned :
      (found : List Link) (l : List ℕ) (n : ℕ) (world : World)
      → Holds opened lists world l n
      → HasReturned l n (traverse_links links found world)
  unfolding traverse_links
  traverse_links-HasReturned [] l n world h = h
  traverse_links-HasReturned (link ∷ rest) l n world (e, f) =
      let good : List Interface → World → Type 0 = λ a w. Holds opened lists w l n in
      let bad : World → Type 0 = λ w. Holds opened lists w l n in
      let token : Interface = token_of links link in
      Ends-bind (λ a w. Holds opened lists w l n) good bad (set_interface_type_mac links token) _
        world
        (subst (λ k. HasReturned l k (set_interface_type_mac links token world)) f
          (subst (λ k. HasReturned k (lists world) (set_interface_type_mac links token world)) e
            (set_interface_type_mac-HasReturned token world)))
        λ token w h2.
          Ends-bind good good bad (traverse_links links rest) _ w
            (traverse_links-HasReturned rest l n w h2) λ more v h3. h3

  on_links-Holds :
      (l : List ℕ) (n : ℕ) (found : Option (List Link)) (w : World)
      → (found ≡ none → Holds opened lists w l n)
      → ((links : List Link) → found ≡ some links → Holds opened lists w l (suc n))
      → Holds opened lists (on_links links found w).1 l n
  on_links-Holds l n none w is_none is_some = is_none refl
  on_links-Holds l n (some found) w is_none is_some =
      let r = traverse_links links found w in
      let (e, f) = kept r (traverse_links-HasReturned found l (suc n) w (is_some found refl)) in
      let (g, h) = law.frees r.1 in (g ∙ e, omega (arith, h, f))
    where
      kept :
          (r : Result (List Interface) × World)
          → HasReturned l (suc n) r
          → Holds opened lists r.1 l (suc n)
      kept (returns a, v) h = h
      kept (throws m, v) h = h

  -- Whether `find_network_interfaces` returns or throws, wherever it fails, exactly those descriptors
  -- are open that were, and every list of links is given back: make_socket and close are those of the
  -- library, over calls of the system that do as documented.
  pub find_network_interfaces-Holds :
      (world : World)
      → Holds opened lists (find_network_interfaces links world).1 (opened world) (lists world)
  unfolding find_network_interfaces
  find_network_interfaces-Holds world =
      on_links-Holds (opened world) (lists world) (links.get_links world).0
        (links.get_links world).1 (law.refuses world) (law.gives world)
