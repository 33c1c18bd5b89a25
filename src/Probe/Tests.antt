-- ===== src/Probe/Tests.antt =====
-- `select` on a few descriptors, over a system that answers with the number it is given.
use impact_socket_set.Base.{
  ℕ, suc, none, some, List, [], ◌∷◌, ◌++◌, if◌then◌else◌, all_of, ◌≡◌, refl, arith,
}
use impact_socket_set.Base.Int.{ℤ, pos, negsuc}
use impact_socket_set.Probe.Select.{SystemSelect, timeval, fill, select}
use impact_socket_set.Probe.Select.Asked.{has_bit, member_of, top, select-asks}

abbrev system : SystemSelect ℕ
system number reads writes time world = (pos number, suc world)

abbrev reads : List ℤ
reads = pos 7 ∷ pos 3 ∷ []

abbrev writes : List ℤ
writes = pos 12 ∷ pos 3 ∷ []

select-asks_example : select 1024 system reads writes (pos 1) 0 0 ≡ (
    if all_of (has_bit 1024) (reads ++ writes)
    then some (
        system
          (suc (top (reads ++ writes)))
          (member_of reads)
          (member_of writes)
          (timeval (pos 1) 0)
          0)
    else none)
select-asks_example = select-asks 1024 system reads writes (pos 1) 0 0 (omega arith)

number_asked : select 1024 system reads writes (pos 1) 0 0 ≡ some (pos 13, 1)
unfolding select fill
number_asked = refl

-- A socket without a descriptor, and one with a descriptor that is too great.
faults :
    (select 1024 system (negsuc 0 ∷ []) [] (pos 1) 0 0 ≡ none)
    × (select 1024 system [] (pos 1024 ∷ []) (pos 1) 0 0 ≡ none)
unfolding select fill
faults = (refl, refl)
