-- ===== src/Networking/Listing.antt =====
-- Source/networking.cpp: what find_network_interfaces lists, and what it gives back.
use impact_socket_set.Base.{if◌then◌else◌, List, [], ◌∷◌, map, ◌≡◌}
use impact_socket_set.Networking.Interfaces.{Links, Link, Interface, other, token_of, is_packet}

-- An interface without what the hardware has said of it.
abbrev pub forget : Interface → Interface
forget token = record token { kind = other; mac = [] }

module _ {ℓ} {World : Type ℓ} (links : Links World) where
  -- The links that are no packet links.
  abbrev pub listed : List Link → List Link
  listed [] = []
  listed (link ∷ rest) = if is_packet links link then listed rest else link ∷ listed rest

  abbrev pub Keeps : Interface → Interface → World → Type 0
  Keeps token told w = forget told ≡ forget token

  abbrev pub Lists : List Link → List Interface → World → Type 0
  Lists found tokens w = map forget tokens ≡ map (token_of links) (listed found)

  abbrev pub Any : World → Type 0
  Any w = Unit {0}

  -- Where nothing is known of a call, nothing need be.
  abbrev pub Whatever : {A : Type 0} → A → World → Type 0
  Whatever a w = Unit {0}
