-- ===== src/RingSet/Replacement.antt =====
-- eligibleForReplacement of RingSet.h: whether a ring has members to spare, and the swap of the
-- primary members that are only reached through a rendezvous node with secondary ones that are not.
pub mod Swaps
use lib_meridian.Prelude.{
  ℕ, suc, ◌+◌, ◌<◌, ◌≤◌, ◌≡◌, refl, ◌⊎◌, Bool, true, false, not, ◌&&◌, ◌==◌, nat_eq, Option, none,
  some, if◌then◌else◌, ℤ, pos, negsuc, arith, List, [], ◌∷◌, ◌++◌, length, length-append,
  Bool-cases, inl, inr, nat_beq_iff, ltb, leb,
}
use lib_meridian.Node.{NodeIdent, node_eq, node_key}
use lib_meridian.Vector.{count}
use lib_meridian.Vector.Counts.{count-append}
use lib_meridian.RingSet.Invariant.{members, IsValid, home}
use lib_meridian.RingSet.{RingSet, max_num_rings, put, is_prim_ring_full, rendv_lookup}

-- rendvLookup(...) != -1.
unfoldable pub needs_rendv : RingSet → NodeIdent → Bool
needs_rendv rs n = elim (rendv_lookup rs n) [ none ↦ false | some _ ↦ true ]

-- How many members have no rendezvous node.
unfoldable pub num_eligible : (NodeIdent → Bool) → List NodeIdent → ℕ
num_eligible needs [] = 0
num_eligible needs (n ∷ ns) = (if needs n then 0 else 1) + num_eligible needs ns

-- The inner loop: the first secondary member from position j on that needs no rendezvous node, with
-- the ones before it and the ones behind it.
unfoldable pub next_eligible :
    (NodeIdent → Bool) → List NodeIdent → Option (List NodeIdent × NodeIdent × List NodeIdent)
next_eligible needs [] = none
next_eligible needs (s ∷ rest) =
    let later = next_eligible needs rest in
    if needs s
    then (elim later [
      | none ↦ none
      | some (skipped, found, behind) ↦ some (s ∷ skipped, found, behind)
    ])
    else some ([], s, rest)

-- The outer loop: the secondary ring is split at j.
unfoldable pub swap_members :
    (NodeIdent → Bool)
    → List NodeIdent
    → List NodeIdent
    → List NodeIdent
    → List NodeIdent × List NodeIdent
swap_members needs [] before behind = ([], before ++ behind)
swap_members needs (p ∷ ps) before behind =
    if needs p
    then (elim (next_eligible needs behind) [
      | none ↦
          let (primary, secondary) = swap_members needs ps (before ++ behind) [] in
          (p ∷ primary, secondary)
      | some (skipped, found, rest) ↦
          let (primary, secondary) = swap_members needs ps (before ++ (skipped ++ (p ∷ []))) rest in
          (found ∷ primary, secondary)
    ])
    else (let (primary, secondary) = swap_members needs ps before behind in
        (p ∷ primary, secondary))

-- The case in which as many members need no rendezvous node as the primary ring has places.
abbrev pub swap_rings : ℕ → RingSet → RingSet
swap_rings ring_num rs =
    let swapped =
      swap_members (needs_rendv rs) (rs.primary_ring ring_num) [] (rs.secondary_ring ring_num) in
    record rs {
      primary_ring = put rs.primary_ring ring_num swapped.0;
      secondary_ring = put rs.secondary_ring ring_num swapped.1;
    }

-- `none` is a read of ringFrozen out of its bounds.
unfoldable pub eligible_for_replacement : ℤ → RingSet → Option (Bool × RingSet)
eligible_for_replacement (negsuc n) rs = none
eligible_for_replacement (pos ring_num) rs =
    let primary = rs.primary_ring ring_num in
    let secondary = rs.secondary_ring ring_num in
    let eligible =
      num_eligible (needs_rendv rs) primary + num_eligible (needs_rendv rs) secondary in
    if leb max_num_rings ring_num
    then none
    else if rs.ring_frozen ring_num
    then some (false, rs)
    else if not (is_prim_ring_full rs ring_num && ltb 0 (length secondary))
    then some (false, rs)
    else if ltb rs.primary_size eligible
    then some (true, rs)
    else if eligible == rs.primary_size
    then some (false, swap_rings ring_num rs)
    else some (false, rs)
