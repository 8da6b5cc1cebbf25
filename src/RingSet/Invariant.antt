-- ===== src/RingSet/Invariant.antt =====
-- What a well-formed ring set is.
use lib_meridian.Prelude.{
  leb, false, ℕ, ◌+◌, ◌<◌, ◌≤◌, ◌≡◌, refl, ◌==◌, nat_eq, Option, none, some, if◌then◌else◌, ℤ, pos,
  negsuc, arith, length,
}
use lib_meridian.Node.{NodeIdent, node_eq, node_key}
use lib_meridian.OrdMap.{find}
use lib_meridian.Vector.{count}
use lib_meridian.RingSet.{RingSet, max_num_rings, clamp_ring, get_ring_number, new_ring_set}

-- How often a node stands in a ring.
abbrev pub members : RingSet → ℕ → NodeIdent → ℕ
members rs ring n = count n (rs.primary_ring ring) + count n (rs.secondary_ring ring)

-- Once in the ring of the latency, and in no other; not at all if no latency is known.
abbrev pub once_in : ℕ → Option ℕ → ℕ
once_in ring none = 0
once_in ring (some home) = if home == ring then 1 else 0

pub in_bounds : (ring_num : ℕ) → ring_num < max_num_rings → leb max_num_rings ring_num ≡ false
in_bounds ring_num k = ground (arith, k)

clamp_ring-lt : (z : ℤ) → clamp_ring z < 10
unfolding clamp_ring
clamp_ring-lt (pos n) = ground arith
clamp_ring-lt (negsuc n) = omega arith

module _ (ceil_log : ℕ → ℕ → ℤ) where
  -- The ring of a latency, if it is known.
  unfoldable pub ring_of : ℕ → Option ℕ → Option ℕ
  ring_of base none = none
  ring_of base (some latency_us) = some (clamp_ring (ceil_log latency_us base))

  -- The ring of a node, by its latency.
  unfoldable pub home : RingSet → NodeIdent → Option ℕ
  home rs n = ring_of rs.exponent_base (find n rs.node_latency_us)

  -- The rings keep to their sizes, and each node with a latency stands in the ring of this latency
  -- exactly once, and nowhere else.
  pub record IsValid (rs : RingSet) : Type 0 where
    pub primary_fits :
        (ring : ℕ) → ring < max_num_rings → length (rs.primary_ring ring) ≤ rs.primary_size
    pub secondary_fits :
        (ring : ℕ) → ring < max_num_rings → length (rs.secondary_ring ring) ≤ rs.secondary_size
    pub placed :
        (ring : ℕ) (n : NodeIdent)
        → ring < max_num_rings
        → members rs ring n ≡ once_in ring (home rs n)

  pub get_ring_number-lt :
      (rs : RingSet) (latency_us : ℕ) → get_ring_number ceil_log rs latency_us < 10
  unfolding get_ring_number
  get_ring_number-lt rs latency_us = clamp_ring-lt (ceil_log latency_us rs.exponent_base)

  pub new_ring_set-IsValid : (p s b : ℕ) → IsValid (new_ring_set p s b)
  unfolding new_ring_set count home ring_of find
  new_ring_set-IsValid p s b = record {
    primary_fits = λ ring h. omega arith;
    secondary_fits = λ ring h. omega arith;
    placed = λ ring n h. refl;
  }

  pub home-find :
      (rs : RingSet) (n : NodeIdent)
      → home rs n ≡ ring_of rs.exponent_base (find n rs.node_latency_us)
  unfolding home
  home-find rs n = refl
