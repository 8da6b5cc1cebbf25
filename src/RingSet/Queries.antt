-- ===== src/RingSet/Queries.antt =====
-- The operations of RingSet.h that collect members: membersDump, fillVector and getRandomNodes.
-- A std::set is the map from its elements to nothing; a set of nodes that carry their rendezvous node,
-- ordered by ltNodeIdentRendv, is the map from the nodes to the rendezvous nodes, where an insertion
-- keeps the element that is there.
pub mod Members
use lib_meridian.Prelude.{
  ℕ, zero, suc, ◌+◌, ◌-◌, ◌%◌, Bool, true, false, ◌&&◌, ◌||◌, Option, none, some, if◌then◌else◌, ℤ,
  pos, negsuc, List, [], ◌∷◌, ◌++◌, length, leb, ltb, get_elem?,
}
use lib_meridian.Node.{NodeIdent, NodeIdentRendv, node_key}
use lib_meridian.OrdMap.{OrdMap, find, insert}
use lib_meridian.RealPacket.{Status, success, failure}
use lib_meridian.BufferWrapper.{push_back}
use lib_meridian.RingSet.{RingSet, max_num_rings, get_ring_number, get_node_latency, rendv_lookup}

abbrev pub NodeSet : Type 0
NodeSet = OrdMap {0, 0} NodeIdent (Unit {0})

unfoldable pub has : {V : Type 0} → NodeIdent → OrdMap NodeIdent V → Bool
has q m = elim (find q m) [ none ↦ false | some _ ↦ true ]

-- `set.insert`.
unfoldable pub set_insert : {V : Type 0} → NodeIdent → V → OrdMap NodeIdent V → OrdMap NodeIdent V
set_insert q v m = if has q m then m else insert q v m

unfoldable pub insert_all : List NodeIdent → NodeSet → NodeSet
insert_all [] ring_members = ring_members
insert_all (n ∷ ns) ring_members = insert_all ns (set_insert n tt ring_members)

-- `none` is a negative ring number, a read out of bounds.
unfoldable pub members_dump : ℤ → RingSet → NodeSet → Option (Status × NodeSet)
members_dump (negsuc n) rs ring_members = none
members_dump (pos ring_num) rs ring_members =
    if leb max_num_rings ring_num
    then some (failure, ring_members)
    else some (
      success,
      insert_all (rs.secondary_ring ring_num) (insert_all (rs.primary_ring ring_num) ring_members),
    )

-- The rendezvous node of a member, 0 and 0 if it has none.
unfoldable pub rendv_or_zero : RingSet → NodeIdent → NodeIdent
rendv_or_zero rs n = elim (rendv_lookup rs n) [
  | none ↦ record { addr = 0; port = 0 }
  | some rend ↦ rend
]

-- The inner loop of fillVector; `none` is the assert on a member without a latency.
unfoldable pub fill_ring :
    RingSet
    → ℕ
    → ℕ
    → List NodeIdent
    → OrdMap NodeIdent NodeIdent
    → Option (OrdMap NodeIdent NodeIdent)
fill_ring rs lower upper [] ring_members = some ring_members
fill_ring rs lower upper (n ∷ ns) ring_members = elim (get_node_latency rs n) [
  | none ↦ none
  | some cur_latency_us ↦ fill_ring rs lower upper ns (
      if leb cur_latency_us upper && leb lower cur_latency_us
      then set_insert n (rendv_or_zero rs n) ring_members
      else ring_members)
]

-- The outer loop: `rounds` rings from ring `i` on.
unfoldable pub fill_rings :
    RingSet → ℕ → ℕ → ℕ → ℕ → OrdMap NodeIdent NodeIdent → Option (OrdMap NodeIdent NodeIdent)
fill_rings rs lower upper zero i ring_members = some ring_members
fill_rings rs lower upper (suc rounds) i ring_members =
    elim (fill_ring rs lower upper (rs.primary_ring i) ring_members) [
      | none ↦ none
      | some ring_members' ↦ fill_rings rs lower upper rounds (suc i) ring_members'
    ]

-- The bounds of fillVector: all latencies where the lower one is above the upper one.
unfoldable pub upper_bound : ℕ → ℕ → ℕ
upper_bound upper lower = if ltb upper lower then 4294967295 else upper

unfoldable pub lower_bound : ℕ → ℕ → ℕ
lower_bound upper lower = if ltb upper lower then 0 else lower

module _ (ceil_log : ℕ → ℕ → ℤ) where
  -- fillVector. `upper` and `lower` stand for (u_int)ceil((1.0 + betaRatio) * maxAvgUS) and
  -- (u_int)floor((1.0 - betaRatio) * minAvgUS), which are computed in floating point.
  unfoldable pub fill_vector :
      ℕ → ℕ → RingSet → OrdMap NodeIdent NodeIdent → Option (OrdMap NodeIdent NodeIdent)
  fill_vector upper lower rs ring_members =
      let upper_ring = get_ring_number ceil_log rs (upper_bound upper lower) in
      let lower_ring = get_ring_number ceil_log rs (lower_bound upper lower) in
      fill_rings rs (lower_bound upper lower) (upper_bound upper lower)
        (suc upper_ring - lower_ring) lower_ring ring_members

-- One round of getRandomNodes, where `r` is what rand() answers.
unfoldable pub random_node : RingSet → ℕ → ℕ → List NodeIdentRendv
random_node rs i r = elim (rs.primary_ring i) [
  | [] ↦ []
  | n ∷ ns ↦ elim (get_elem? (n ∷ ns) (r % length (n ∷ ns))) [
    | none ↦ []
    | some cur ↦
        record {
          addr = cur.addr;
          port = cur.port;
          addr_rendv = (rendv_or_zero rs cur).addr;
          port_rendv = (rendv_or_zero rs cur).port;
        }
        ∷ []
  ]
]

-- The loop of getRandomNodes: `rounds` rings from ring `i` on, where `draw i` is what rand() answers
-- in the round of ring `i`.
unfoldable pub random_nodes : RingSet → (ℕ → ℕ) → ℕ → ℕ → List NodeIdentRendv
random_nodes rs draw zero i = []
random_nodes rs draw (suc rounds) i =
    random_node rs i (draw i) ++ random_nodes rs draw rounds (suc i)

unfoldable pub get_random_nodes : RingSet → (ℕ → ℕ) → List NodeIdentRendv → List NodeIdentRendv
get_random_nodes rs draw rand_nodes = rand_nodes ++ random_nodes rs draw max_num_rings 0
