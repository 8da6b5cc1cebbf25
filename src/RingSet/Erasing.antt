-- ===== src/RingSet/Erasing.antt =====
-- eraseNode on a well-formed ring set.
use lib_meridian.Prelude.{
  ℕ, ◌<◌, ◌≤◌, ◌≡◌, refl, ap, true, false, ◌==◌, nat_eq, Option, none, some, if◌then◌else◌, ℤ,
  arith, Bool-cases, inl, inr, nat_beq_iff,
}
use lib_meridian.Node.{NodeIdent, node_eq, node_key, same_node_iff}
use lib_meridian.OrdMap.{find}
use lib_meridian.OrdMap.Laws.{find-erase, same_refl}
use lib_meridian.RealPacket.{Status, success, failure}
use lib_meridian.RingSet.{RingSet, max_num_rings, get_ring_number, erase_node, or_abort}
use lib_meridian.RingSet.Invariant.{
  members, once_in, home, home-find, ring_of, IsValid, get_ring_number-lt,
}
use lib_meridian.RingSet.Erase.{Erased, erase_node_at-frozen, erase_node_at-Erased}

-- A node that stands in a ring has this ring as its home.
pub once_in-home : (ring : ℕ) (h : Option ℕ) → 1 ≤ once_in ring h → h ≡ some ring
once_in-home ring none k = absurd (omega (arith, k))
once_in-home ring (some r) k = ground (arith, nat_beq_iff r ring)

pub beq_comm : (a b : NodeIdent) → (a == b) ≡ (b == a)
beq_comm a b = ground (arith, same_node_iff a b, same_node_iff b a)

module _ (ceil_log : ℕ → ℕ → ℤ) where
  pub home-Erased :
      (n q : NodeIdent) (ring : ℕ) (s t : RingSet)
      → Erased n ring s t
      → home ceil_log t q ≡ (if n == q then none else home ceil_log s q)
  unfolding ring_of
  home-Erased n q ring s t e = elim (Bool-cases (n == q)) [
    | inl h ↦ cc (
      h,
      home-find ceil_log t q,
      e.latencies,
      find-erase q n s.node_latency_us,
      (same_node_iff n q).0 h,
      same_refl n,
    )
    | inr h ↦ cc (
      h,
      home-find ceil_log t q,
      home-find ceil_log s q,
      e.latencies,
      e.exponent_base,
      find-erase q n s.node_latency_us,
      beq_comm n q,
    )
  ]

  pub Erased-IsValid :
      (n : NodeIdent) (ring : ℕ) (s t : RingSet)
      → IsValid ceil_log s
      → home ceil_log s n ≡ some ring
      → Erased n ring s t
      → IsValid ceil_log t
  Erased-IsValid n ring s t v h e = record {
    primary_fits = λ r k. omega (arith, v.primary_fits r k, e.primary r, e.primary_size);
    secondary_fits = λ r k. omega (arith, v.secondary_fits r k, e.secondary r, e.secondary_size);
    placed = λ r q k. elim (Bool-cases (n == q)) [
      | inl g ↦ ground (
        arith,
        e.counts r q,
        v.placed r q k,
        home-Erased n q ring s t e,
        nat_beq_iff r ring,
        nat_beq_iff ring r,
        h,
        ap (home ceil_log s) ((same_node_iff n q).0 g),
      )
      | inr g ↦ ground (arith, e.counts r q, v.placed r q k, home-Erased n q ring s t e)
    ];
  }

  pub home-member :
      (n : NodeIdent) (ring : ℕ) (s : RingSet)
      → IsValid ceil_log s
      → ring < max_num_rings
      → home ceil_log s n ≡ some ring
      → 1 ≤ members s ring n
  home-member n ring s v k h = ground (arith, v.placed ring n k, h, nat_beq_iff ring ring)

  -- The three answers of eraseNode(inNode).
  pub data ErasingAnswer (n : NodeIdent) (s : RingSet) (r : Option (Status × RingSet))
      : Type 0 where
    unknown : home ceil_log s n ≡ none → r ≡ some (failure, s) → ErasingAnswer n s r
    in_frozen_ring :
        (ring : ℕ)
        → home ceil_log s n ≡ some ring
        → s.ring_frozen ring ≡ true
        → r ≡ some (success, s)
        → ErasingAnswer n s r
    taken_out :
        (ring : ℕ) (t : RingSet)
        → home ceil_log s n ≡ some ring
        → s.ring_frozen ring ≡ false
        → Erased n ring s t
        → IsValid ceil_log t
        → r ≡ some (success, t)
        → ErasingAnswer n s r

  -- eraseNode(inNode) on a well-formed ring set: a node without a latency is answered by -1 and
  -- nothing changes; one whose ring is frozen is answered by 0 and nothing changes; any other is
  -- answered by 0, taken out of its ring and out of both maps, with every other node kept in its ring, and
  -- the ring set stays well formed. The assert never fails.
  pub erase_node_lem :
      (n : NodeIdent) (s : RingSet)
      → IsValid ceil_log s
      → ErasingAnswer n s (erase_node ceil_log n s)
  unfolding erase_node or_abort home ring_of get_ring_number
  erase_node_lem n s v = go (find n s.node_latency_us) refl
    where
      go :
          (o : Option ℕ)
          → find n s.node_latency_us ≡ o
          → ErasingAnswer n s (erase_node ceil_log n s)
      go none e = unknown (rw e refl) (rw (erase_node, e) refl)
      go (some l) e = elim (Bool-cases (s.ring_frozen (get_ring_number ceil_log s l))) [
        | inl h ↦
            in_frozen_ring (get_ring_number ceil_log s l) (rw e refl) h
              (rw (erase_node, e, erase_node_at-frozen n (get_ring_number ceil_log s l) s h) refl)
        | inr h ↦
            let at_home = ap (ring_of ceil_log s.exponent_base) e in
            let (t, succeeds, erased) = erase_node_at-Erased n (get_ring_number ceil_log s l) s h (
              home-member n (get_ring_number ceil_log s l) s v (get_ring_number-lt ceil_log s l)
                at_home) in
            taken_out (get_ring_number ceil_log s l) t at_home h erased
              (Erased-IsValid n (get_ring_number ceil_log s l) s t v at_home erased)
              (rw (erase_node, e, succeeds) refl)
      ]
