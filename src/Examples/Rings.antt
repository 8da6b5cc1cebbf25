-- ===== src/Examples/Rings.antt =====
-- Ring sets. The logarithm of the ring number is computed by a search.
use lib_meridian.Prelude.{
  ℕ, zero, suc, ◌+◌, ◌*◌, ◌-◌, ◌^◌, ◌≤◌, ◌≡◌, refl, false, Bool, ◌⊎◌, ◌&&◌, ◌||◌, ◌==◌, nat_eq,
  nat_beq_iff, [], ◌∷◌, length, none, some, ℤ, pos, leb, if◌then◌else◌, arith,
}
use lib_meridian.Node.{NodeIdent, node_eq, node_key, same_node}
use lib_meridian.OrdMap.{OrdMap, find}
use lib_meridian.RealPacket.{success}
use lib_meridian.Vector.{count, contains}
use lib_meridian.RingSet.{
  RingSet, put, get_ring_number, clamp_ring, get_node_latency, rendv_lookup, erase_node,
  insert_node, insert_node_keeping, store_rendv,
}
use lib_meridian.RingSet.Invariant.{IsValid, home, ring_of, members}
use lib_meridian.RingSet.Erasing.{ErasingAnswer, erase_node_lem}
use lib_meridian.RingSet.Placing.{InsertingAnswer}
use lib_meridian.RingSet.Pushing.{has_room}
use lib_meridian.RingSet.Inserting.{
  InsertingEnd, insert_node_lem, insert_node-IsValid, insert_node-loses_rendv,
}
use lib_meridian.RingSet.Replacement.{needs_rendv, num_eligible, eligible_for_replacement}
use lib_meridian.RingSet.Replacement.Swaps.{
  eligible_for_replacement-IsValid, eligible_for_replacement-swaps,
}
use lib_meridian.RingSet.Queries.{NodeSet, has, members_dump, fill_vector, upper_bound, lower_bound}
use lib_meridian.RingSet.Queries.Members.{members_dump_lem, fill_vector_lem, in_rings, within}
use lib_meridian.RingSet.SetMembers.{set_ring_members}
use lib_meridian.RingSet.SetMembers.Rearranged.{SettingAnswer, set_ring_members-IsValid}

-- The least k with l ≤ 1000 * b ^ k, below `fuel`: the ceiling of the logarithm from 1000 on.
search : ℕ → ℕ → ℕ → ℕ → ℕ
search zero k l b = k
search (suc fuel) k l b =
    let rest = search fuel (suc k) l b in if leb l (1000 * b ^ k) then k else rest

abbrev steps : ℕ → ℕ → ℤ
steps l b = pos (search 32 0 l b)

abbrev near : NodeIdent
near = record { addr = 1; port = 100 }

abbrev spare : NodeIdent
spare = record { addr = 2; port = 100 }

abbrev far : NodeIdent
far = record { addr = 3; port = 100 }

abbrev nobody : NodeIdent
nobody = record { addr = 0; port = 0 }

-- Two nodes within 2 ms, one in each part of ring 1, whose second part has room for one more; `near` is
-- reached through `far`.
abbrev rings : RingSet
rings = record {
  primary_ring = put (λ _. []) 1 (near ∷ []);
  secondary_ring = put (λ _. []) 1 (spare ∷ []);
  ring_frozen = λ _. false;
  primary_size = 1;
  secondary_size = 2;
  exponent_base = 2;
  node_latency_us = (near, 1500) ∷ (spare, 1800) ∷ [];
  rendv_mapping = (near, far) ∷ [];
}

rings-IsValid : IsValid steps rings
unfolding home ring_of find count clamp_ring search same_node
rings-IsValid = record {
  primary_fits = λ ring k. ground (arith, nat_beq_iff ring 1);
  secondary_fits = λ ring k. ground (arith, nat_beq_iff ring 1);
  placed = λ ring n k. ground (arith, nat_beq_iff ring 1, nat_beq_iff 1 ring);
}

erase_node_lem_example : ErasingAnswer steps near rings (erase_node steps near rings)
erase_node_lem_example = erase_node_lem steps near rings rings-IsValid

insert_node_lem_example :
    InsertingAnswer steps far 1900
      (store_rendv far nobody rings)
      (insert_node steps far 1900 nobody rings)
insert_node_lem_example = insert_node_lem steps far 1900 nobody rings rings-IsValid

insert_node-IsValid_example :
    InsertingEnd steps 1900 rings (insert_node steps far 1900 nobody rings)
    × InsertingEnd steps 1900 rings (insert_node_keeping steps far 1900 rings)
insert_node-IsValid_example = insert_node-IsValid steps far 1900 nobody rings rings-IsValid

near-known : get_node_latency rings near ≡ some 1500
unfolding get_node_latency find same_node
near-known = refl

near-moves : (get_ring_number steps rings 1500 == get_ring_number steps rings 5000) ≡ false
unfolding get_ring_number clamp_ring search
near-moves = refl

insert_node-loses_rendv_example :
    ((t : RingSet) × (insert_node steps near 5000 far rings ≡ some t)
      × (rendv_lookup t near ≡ none))
    ⊎ ((has_room (get_ring_number steps rings 5000) rings ≡ false)
        × (insert_node steps near 5000 far rings ≡ none))
insert_node-loses_rendv_example =
    insert_node-loses_rendv steps near 5000 1500 far rings rings-IsValid near-known near-moves refl
      refl

eligible_for_replacement-IsValid_example :
    (b : Bool) × (t : RingSet) × (eligible_for_replacement (pos 1) rings ≡ some (b, t))
    × IsValid steps t
    × (t.node_latency_us ≡ rings.node_latency_us)
eligible_for_replacement-IsValid_example =
    eligible_for_replacement-IsValid steps rings 1 rings-IsValid (omega arith)

one_eligible :
    num_eligible (needs_rendv rings) (near ∷ []) + num_eligible (needs_rendv rings) (spare ∷ []) ≡ 1
unfolding num_eligible needs_rendv rendv_lookup find same_node
one_eligible = refl

eligible_for_replacement-swaps_example :
    (t : RingSet) × (eligible_for_replacement (pos 1) rings ≡ some (false, t))
    × (t.rendv_mapping ≡ rings.rendv_mapping)
    × (num_eligible (needs_rendv rings) (t.primary_ring 1) ≡ length (t.primary_ring 1))
    × (length (t.primary_ring 1) ≡ 1)
    × ((q : NodeIdent) → members t 1 q ≡ members rings 1 q)
eligible_for_replacement-swaps_example =
    eligible_for_replacement-swaps rings 1 (omega arith) refl refl (omega arith) one_eligible

members_dump_lem_example :
    (out : NodeSet) × (members_dump (pos 1) rings [] ≡ some (success, out))
    × ((q : NodeIdent)
        → has q out
          ≡ (has {V = Unit {0}} q [] || contains q (near ∷ []) || contains q (spare ∷ [])))
members_dump_lem_example = members_dump_lem rings 1 [] (omega arith)

fill_vector_lem_example :
    (out : OrdMap NodeIdent NodeIdent) × (fill_vector steps 3000 1000 rings [] ≡ some out)
    × ((q : NodeIdent)
        → has q out ≡ (
            has {V = NodeIdent} q []
            || (in_rings rings
                  (suc (get_ring_number steps rings (upper_bound 3000 1000))
                    - get_ring_number steps rings (lower_bound 3000 1000))
                  (get_ring_number steps rings (lower_bound 3000 1000))
                  q
                && within rings (lower_bound 3000 1000) (upper_bound 3000 1000) q)))
fill_vector_lem_example = fill_vector_lem steps rings 3000 1000 [] rings-IsValid

swapped_once : (q : NodeIdent) → count q (spare ∷ []) + count q (near ∷ []) ≤ 1
unfolding count same_node
swapped_once q = ground arith

set_ring_members-IsValid_example :
    SettingAnswer steps
      (pos 1)
      (spare ∷ [])
      (near ∷ [])
      rings
      (set_ring_members (pos 1) (spare ∷ []) (near ∷ []) rings)
set_ring_members-IsValid_example =
    set_ring_members-IsValid steps rings (pos 1) (spare ∷ []) (near ∷ []) rings-IsValid swapped_once
