-- ===== src/RingSet/SetMembers.antt =====
-- setRingMembers of RingSet.h: a ring gets the same members in another arrangement.
pub mod Sets
pub mod Arrangements
pub mod Rearranged
use lib_meridian.Prelude.{
  ℕ, suc, ◌+◌, ◌<◌, ◌≤◌, ◌≡◌, refl, ap, sym, ◌∙◌, Bool, true, false, not, ◌||◌, ◌==◌, nat_eq,
  nat_beq_iff, Option, none, some, if◌then◌else◌, ℤ, pos, negsuc, List, [], ◌∷◌, ◌++◌, length,
  length-append, leb, ltb, arith, Bool-cases, inl, inr,
}
use lib_meridian.Node.{NodeIdent, node_key, node_eq, same_node_iff}
use lib_meridian.OrdMap.{find, insert}
use lib_meridian.RealPacket.{Status, success, failure}
use lib_meridian.Vector.{contains, count, erase_first}
use lib_meridian.Vector.Counts.{count-contains, count-append, count-erase_first, length-erase_first}
use lib_meridian.RingSet.{RingSet, max_num_rings, put}
use lib_meridian.RingSet.Invariant.{in_bounds, members, IsValid, home, once_in}
use lib_meridian.RingSet.Queries.{NodeSet, has, set_insert, insert_all}
use lib_meridian.RingSet.Queries.Members.{has-insert_all, has-set_insert}

unfoldable pub all_in : NodeSet → List NodeIdent → Bool
all_in tmp_set [] = true
all_in tmp_set (n ∷ ns) = if has n tmp_set then all_in tmp_set ns else false

-- All existing nodes of the ring.
unfoldable pub existing : RingSet → ℕ → NodeSet
existing rs ring_num =
    insert_all (rs.secondary_ring ring_num) (insert_all (rs.primary_ring ring_num) [])

unfoldable pub set_ring_members : ℤ → List NodeIdent → List NodeIdent → RingSet → Status × RingSet
set_ring_members (negsuc n) prim second rs = (failure, rs)
set_ring_members (pos ring_num) prim second rs =
    let tmp_set = existing rs ring_num in
    if leb max_num_rings ring_num
    then (failure, rs)
    else if ltb rs.primary_size (length prim) || ltb rs.secondary_size (length second)
    then (failure, rs)
    else if not (length prim + length second == length tmp_set)
    then (failure, rs)
    else if not (all_in tmp_set prim)
    then (failure, rs)
    else if not (all_in tmp_set second)
    then (failure, rs)
    else (
      success,
      record rs {
        primary_ring = put rs.primary_ring ring_num prim;
        secondary_ring = put rs.secondary_ring ring_num second;
      },
    )
