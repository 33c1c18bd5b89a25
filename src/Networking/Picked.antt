-- ===== src/Networking/Picked.antt =====
-- Source/networking.cpp: which message find_default_route takes its route from.
use impact_socket_set.Base.{
  Bool, true, false, not, ◌&&◌, ◌==◌, if◌then◌else◌, some, none, List, [], ◌∷◌, ◌++◌, All, ◌≡◌,
  arith,
}
use impact_socket_set.Networking.Routes.{
  Host, Message, Fields, no_fields, take_attributes, is_foreign, pick_route,
}

module _ {ℓ} {World : Type ℓ} (host : Host World) where
  abbrev pub fields_of : Message → Fields
  fields_of m = take_attributes host m.attributes no_fields

  -- A route to somewhere in particular, in the main IPv4 table.
  abbrev pub is_passed : Message → Bool
  is_passed m = not (is_foreign host m) && not ((fields_of m).destination == 0)

  -- Behind routes to particular destinations in the main IPv4 table, the first other message
  -- decides: a default route of that table is the answer, and where a message of another family or
  -- table comes first there is none, whatever follows.
  pub pick_route-first :
      (before after : List Message) (m : Message)
      → All (λ x. is_passed x ≡ true) before
      → is_passed m ≡ false
      → pick_route host (before ++ (m ∷ after))
        ≡ (if is_foreign host m then none else some (fields_of m))
  unfolding pick_route
  pick_route-first [] after m passed decides = ground (arith, decides)
  pick_route-first (x ∷ before) after m passed decides =
      ground (arith, passed.0, pick_route-first before after m passed.1 decides)
