-- ===== src/RingSet.antt =====
-- class RingSet of RingSet.h and RingSet.cpp: the latency rings of a node. A std::map from nodes
-- holds the last latency, and each node known stands in the ring of its latency.
-- The logarithm of the ring number is libm's, in floating point: `ceil_log l b` stands for
-- (int)ceil(log(l / 1000.0) / log((double)b)). An assert that fails aborts, and so does here the use
-- of an element that is not there: both are `none`.
pub mod Invariant
pub mod Erase
pub mod Erasing
pub mod Pushing
pub mod Placing
pub mod Inserting
pub mod Replacement
pub mod Queries
pub mod SetMembers
use lib_meridian.Prelude.{
  ℕ, ◌+◌, ◌<◌, ◌≤◌, ◌≡◌, Bool, true, false, not, ◌&&◌, ◌||◌, ◌==◌, nat_eq, List, [], ◌∷◌, ◌++◌,
  length, Option, none, some, ltb, leb, if◌then◌else◌, ℤ, pos, negsuc,
}
use lib_meridian.Node.{NodeIdent, node_eq, node_key}
use lib_meridian.OrdMap.{OrdMap, find, insert, erase}
use lib_meridian.RealPacket.{Status, success, failure}
use lib_meridian.BufferWrapper.{push_back}
use lib_meridian.Vector.{contains, erase_first, swap_remove}

abbrev pub max_num_rings : ℕ
max_num_rings = 10

-- The arrays over the rings are functions of the ring number.
pub record RingSet : Type 0 where
  pub primary_ring : ℕ → List NodeIdent
  pub secondary_ring : ℕ → List NodeIdent
  pub ring_frozen : ℕ → Bool
  pub primary_size : ℕ
  pub secondary_size : ℕ
  pub exponent_base : ℕ
  pub node_latency_us : OrdMap NodeIdent ℕ
  pub rendv_mapping : OrdMap NodeIdent NodeIdent

-- `a[i] = v`.
abbrev pub put {ℓ} : {A : Type ℓ} → (ℕ → A) → ℕ → A → ℕ → A
put a i v j = if j == i then v else a j

unfoldable pub new_ring_set : ℕ → ℕ → ℕ → RingSet
new_ring_set prim_ring_size second_ring_size base = record {
  primary_ring = λ _. [];
  secondary_ring = λ _. [];
  ring_frozen = λ _. false;
  primary_size = prim_ring_size;
  secondary_size = second_ring_size;
  exponent_base = base;
  node_latency_us = [];
  rendv_mapping = [];
}

-- freezeRing and unfreezeRing.
unfoldable pub set_frozen : Bool → ℤ → RingSet → Status × RingSet
set_frozen frozen (pos ring_num) rs =
    if leb max_num_rings ring_num
    then (failure, rs)
    else (success, record rs { ring_frozen = put rs.ring_frozen ring_num frozen })
set_frozen frozen (negsuc n) rs = (failure, rs)

unfoldable pub freeze_ring : ℤ → RingSet → Status × RingSet
unfolding set_frozen
freeze_ring = set_frozen true

unfoldable pub unfreeze_ring : ℤ → RingSet → Status × RingSet
unfolding set_frozen
unfreeze_ring = set_frozen false

unfoldable pub get_node_latency : RingSet → NodeIdent → Option ℕ
get_node_latency rs in_node = find in_node rs.node_latency_us

unfoldable pub rendv_lookup : RingSet → NodeIdent → Option NodeIdent
rendv_lookup rs remote_node = find remote_node rs.rendv_mapping

unfoldable pub is_prim_ring_full : RingSet → ℕ → Bool
is_prim_ring_full rs ring_num = length (rs.primary_ring ring_num) == rs.primary_size

-- What both branches of eraseNode end with.
unfoldable pub forget : NodeIdent → RingSet → RingSet
forget in_node rs = record rs {
  node_latency_us = erase in_node rs.node_latency_us;
  rendv_mapping = erase in_node rs.rendv_mapping;
}

-- The oldest secondary member moves up behind the primary ones.
unfoldable pub promote : ℕ → List NodeIdent → List NodeIdent → RingSet → RingSet
promote ring prim [] rs = record rs { primary_ring = put rs.primary_ring ring prim }
promote ring prim (front ∷ rest) rs = record rs {
  primary_ring = put rs.primary_ring ring (push_back prim front);
  secondary_ring = put rs.secondary_ring ring rest;
}

-- eraseNode(inNode, ring) of a node that is no element of the rings, so that the reference `inNode`
-- is still good when the node has left its ring.
unfoldable pub erase_node_at : NodeIdent → ℕ → RingSet → Status × RingSet
erase_node_at in_node ring rs =
    if rs.ring_frozen ring
    then (success, rs)
    else if contains in_node (rs.primary_ring ring)
    then (
      success,
      forget in_node
          (promote ring (swap_remove in_node (rs.primary_ring ring)) (rs.secondary_ring ring) rs),
    )
    else if contains in_node (rs.secondary_ring ring)
    then (
      success,
      forget in_node (record rs {
        secondary_ring = put rs.secondary_ring ring (erase_first in_node (rs.secondary_ring ring));
      }),
    )
    else (failure, rs)

-- `if (eraseNode(...) == -1) assert(false);` and what follows.
unfoldable pub or_abort : {A : Type 0} → Status × RingSet → (RingSet → Option A) → Option A
or_abort (failure, rs) k = none
or_abort (success, rs) k = k rs

-- The last part of getRingNumber.
unfoldable pub clamp_ring : ℤ → ℕ
clamp_ring (pos n) = if leb max_num_rings n then 9 else n
clamp_ring (negsuc n) = 0

module _ (ceil_log : ℕ → ℕ → ℤ) where
  unfoldable pub get_ring_number : RingSet → ℕ → ℕ
  unfolding clamp_ring
  get_ring_number rs latency_us = clamp_ring (ceil_log latency_us rs.exponent_base)

  -- eraseNode(inNode).
  unfoldable pub erase_node : NodeIdent → RingSet → Option (Status × RingSet)
  erase_node in_node rs = elim (find in_node rs.node_latency_us) [
    | none ↦ some (failure, rs)
    | some latency_us ↦
        or_abort (erase_node_at in_node (get_ring_number rs latency_us) rs)
          (λ rs'. some (success, rs'))
  ]

-- eraseNode(secondaryRing[ring].front(), ring): here `inNode` refers to an element of the secondary ring.
-- Found in either ring, this element leaves the secondary ring (it moves up, or it is erased), and then
-- nodeLatencyUS.erase(inNode) uses what is gone.
unfoldable pub erase_front : ℕ → RingSet → Option (Status × RingSet)
erase_front ring rs = elim (rs.secondary_ring ring) [
  | [] ↦ none
  | front ∷ rest ↦
      if rs.ring_frozen ring
      then some (success, rs)
      else if contains front (rs.primary_ring ring) || contains front (front ∷ rest)
      then none
      else some (failure, rs)
]

-- The room for one more secondary member.
unfoldable pub make_room : ℕ → RingSet → Option RingSet
make_room ring_num rs =
    if leb rs.secondary_size (length (rs.secondary_ring ring_num))
    then (elim (erase_front ring_num rs) [ none ↦ none | some answer ↦ or_abort answer some ])
    else some rs

abbrev pub record_latency : NodeIdent → ℕ → RingSet → RingSet
record_latency in_node latency_us rs = record rs {
  node_latency_us = insert in_node latency_us rs.node_latency_us;
}

-- The end of insertNode: push the new node and store its latency.
unfoldable pub push_node : NodeIdent → ℕ → ℕ → RingSet → Option RingSet
push_node in_node latency_us ring_num rs =
    if ltb (length (rs.primary_ring ring_num)) rs.primary_size
    then some (
        record_latency in_node latency_us (record rs {
          primary_ring =
              put rs.primary_ring ring_num (push_back (rs.primary_ring ring_num) in_node);
        }))
    else (elim (make_room ring_num rs) [
      | none ↦ none
      | some rs' ↦ some (
          record_latency in_node latency_us (record rs' {
            secondary_ring =
                put rs'.secondary_ring ring_num (push_back (rs'.secondary_ring ring_num) in_node);
          }))
    ])

-- The rendezvous information is stored also where the ring is frozen.
unfoldable pub store_rendv : NodeIdent → NodeIdent → RingSet → RingSet
store_rendv in_node rend rs =
    if not (rend.addr == 0) && not (rend.port == 0)
    then record rs { rendv_mapping = insert in_node rend rs.rendv_mapping }
    else rs

module _ (ceil_log : ℕ → ℕ → ℤ) where
  -- insertNode behind the update of the rendezvous information.
  unfoldable pub place_node : NodeIdent → ℕ → RingSet → Option RingSet
  place_node in_node latency_us rs =
      let ring_num = get_ring_number ceil_log rs latency_us in
      if rs.ring_frozen ring_num then some rs else (elim (find in_node rs.node_latency_us) [
        | none ↦ push_node in_node latency_us ring_num rs
        | some prev_latency ↦
            let prev_ring_num = get_ring_number ceil_log rs prev_latency in
            if prev_ring_num == ring_num
            then some (record_latency in_node latency_us rs)
            else if rs.ring_frozen prev_ring_num
            then some rs
            else or_abort (erase_node_at in_node prev_ring_num rs)
                (push_node in_node latency_us ring_num)
      ])

  -- insertNode with a rendezvous node; it always answers 0.
  unfoldable pub insert_node : NodeIdent → ℕ → NodeIdent → RingSet → Option RingSet
  insert_node in_node latency_us rend rs =
      place_node in_node latency_us (store_rendv in_node rend rs)

  -- insertNode without one.
  unfoldable pub insert_node_keeping : NodeIdent → ℕ → RingSet → Option RingSet
  insert_node_keeping in_node latency_us rs = elim (find in_node rs.rendv_mapping) [
    | none ↦ insert_node in_node latency_us (record { addr = 0; port = 0 }) rs
    | some rend ↦ insert_node in_node latency_us rend rs
  ]
