-- ===== src/RingSet/Erase.antt =====
-- What eraseNode does to a ring.
use lib_meridian.Prelude.{
  ℕ, suc, ◌+◌, ◌≤◌, ◌≡◌, refl, ap, true, false, ◌==◌, nat_eq, List, [], ◌∷◌, length, length-append,
  if◌then◌else◌, Bool-cases, inl, inr, arith, nat_beq_iff,
}
use lib_meridian.Node.{NodeIdent, node_eq, node_key}
use lib_meridian.OrdMap.{erase}
use lib_meridian.RealPacket.{success}
use lib_meridian.Vector.{contains, count, swap_remove, erase_first}
use lib_meridian.Vector.Counts.{
  count-append, count-absent, count-swap_remove, count-erase_first, length-swap_remove,
  length-erase_first,
}
use lib_meridian.RingSet.{RingSet, forget, promote, erase_node_at, put}
use lib_meridian.RingSet.Invariant.{members}

-- 1 if the two are the same node in the same ring.
abbrev pub here : NodeIdent → ℕ → ℕ → NodeIdent → ℕ
here n ring r q = if r == ring then (if n == q then 1 else 0) else 0

-- `t` is `s` with `n` taken out of `ring`.
pub record Erased (n : NodeIdent) (ring : ℕ) (s t : RingSet) : Type 0 where
  pub counts : (r : ℕ) (q : NodeIdent) → members t r q + here n ring r q ≡ members s r q
  pub primary : (r : ℕ) → length (t.primary_ring r) ≤ length (s.primary_ring r)
  pub secondary : (r : ℕ) → length (t.secondary_ring r) ≤ length (s.secondary_ring r)
  pub shrinks :
      1 ≤ length (s.secondary_ring ring)
      → suc (length (t.secondary_ring ring)) ≤ length (s.secondary_ring ring)
  pub latencies : t.node_latency_us ≡ erase n s.node_latency_us
  pub rendvs : t.rendv_mapping ≡ erase n s.rendv_mapping
  pub frozen : t.ring_frozen ≡ s.ring_frozen
  pub primary_size : t.primary_size ≡ s.primary_size
  pub secondary_size : t.secondary_size ≡ s.secondary_size
  pub exponent_base : t.exponent_base ≡ s.exponent_base

pub count-one : (q f : NodeIdent) → count q (f ∷ []) ≡ (if f == q then 1 else 0)
unfolding count
count-one q f = omega arith

count-cons :
    (q f : NodeIdent) (sec : List NodeIdent)
    → count q (f ∷ sec) ≡ (if f == q then 1 else 0) + count q sec
unfolding count
count-cons q f sec = refl

promote-Erased :
    (n : NodeIdent) (ring : ℕ) (s : RingSet) (sec : List NodeIdent)
    → contains n (s.primary_ring ring) ≡ true
    → s.secondary_ring ring ≡ sec
    → Erased n ring s (forget n (promote ring (swap_remove n (s.primary_ring ring)) sec s))
unfolding promote forget
promote-Erased n ring s [] h e = record {
  counts = λ r q. ground (arith, nat_beq_iff r ring, count-swap_remove q n (s.primary_ring ring) h);
  primary = λ r. ground (arith, length-swap_remove n (s.primary_ring ring) h);
  secondary = λ r. omega arith;
  shrinks = λ k. absurd (omega (arith, ap length e, k));
  latencies = refl;
  rendvs = refl;
  frozen = refl;
  primary_size = refl;
  secondary_size = refl;
  exponent_base = refl;
}
promote-Erased n ring s (f ∷ sec) h e = record {
  counts = λ r q. ground (
    arith,
    nat_beq_iff r ring,
    count-swap_remove q n (s.primary_ring ring) h,
    count-append q (swap_remove n (s.primary_ring ring)) (f ∷ []),
    count-one q f,
    count-cons q f sec,
    ap (count q) e,
  );
  primary = λ r. ground (
    arith,
    length-swap_remove n (s.primary_ring ring) h,
    length-append (swap_remove n (s.primary_ring ring)) (f ∷ []),
  );
  secondary = λ r. ground (arith, nat_beq_iff r ring, ap length e);
  shrinks = λ k. ground (arith, nat_beq_iff ring ring, ap length e);
  latencies = refl;
  rendvs = refl;
  frozen = refl;
  primary_size = refl;
  secondary_size = refl;
  exponent_base = refl;
}

secondary-Erased :
    (n : NodeIdent) (ring : ℕ) (s : RingSet)
    → contains n (s.secondary_ring ring) ≡ true
    → Erased n ring s (
        forget n (record s {
          secondary_ring = put s.secondary_ring ring (erase_first n (s.secondary_ring ring));
        }))
unfolding forget
secondary-Erased n ring s h = record {
  counts =
      λ r q. ground (arith, nat_beq_iff r ring, count-erase_first q n (s.secondary_ring ring) h);
  primary = λ r. omega arith;
  secondary =
      λ r. ground (arith, nat_beq_iff r ring, length-erase_first n (s.secondary_ring ring) h);
  shrinks =
      λ k. ground (arith, nat_beq_iff ring ring, length-erase_first n (s.secondary_ring ring) h);
  latencies = refl;
  rendvs = refl;
  frozen = refl;
  primary_size = refl;
  secondary_size = refl;
  exponent_base = refl;
}

-- A node that stands in an unfrozen ring is taken out of it, and the call succeeds.
pub erase_node_at-Erased :
    (n : NodeIdent) (ring : ℕ) (s : RingSet)
    → s.ring_frozen ring ≡ false
    → 1 ≤ members s ring n
    → (t : RingSet) × (erase_node_at n ring s ≡ (success, t)) × Erased n ring s t
unfolding erase_node_at
erase_node_at-Erased n ring s u k = elim (Bool-cases (contains n (s.primary_ring ring))) [
  | inl h ↦ (_, rw (u, h) refl, promote-Erased n ring s (s.secondary_ring ring) h refl)
  | inr h ↦ elim (Bool-cases (contains n (s.secondary_ring ring))) [
    | inl g ↦ (_, rw (u, h, g) refl, secondary-Erased n ring s g)
    | inr g ↦ absurd (
        omega (
          arith,
          k,
          count-absent n (s.primary_ring ring) h,
          count-absent n (s.secondary_ring ring) g,
        ))
  ]
]

pub erase_node_at-frozen :
    (n : NodeIdent) (ring : ℕ) (s : RingSet)
    → s.ring_frozen ring ≡ true
    → erase_node_at n ring s ≡ (success, s)
unfolding erase_node_at
erase_node_at-frozen n ring s h = rw h refl

promote-others :
    (ring r : ℕ) (prim sec : List NodeIdent) (s : RingSet)
    → (r == ring) ≡ false
    → ((promote ring prim sec s).primary_ring r ≡ s.primary_ring r)
      × ((promote ring prim sec s).secondary_ring r ≡ s.secondary_ring r)
unfolding promote
promote-others ring r prim [] s h = (rw h refl, refl)
promote-others ring r prim (f ∷ sec) s h = (rw h refl, rw h refl)

-- The other rings stay as they are.
pub erase_node_at-others :
    (n : NodeIdent) (ring r : ℕ) (s : RingSet)
    → (r == ring) ≡ false
    → ((erase_node_at n ring s).1.primary_ring r ≡ s.primary_ring r)
      × ((erase_node_at n ring s).1.secondary_ring r ≡ s.secondary_ring r)
unfolding erase_node_at forget
erase_node_at-others n ring r s h = elim (Bool-cases (s.ring_frozen ring)) [
  | inl f ↦ rw f (refl, refl)
  | inr f ↦ elim (Bool-cases (contains n (s.primary_ring ring))) [
    | inl c ↦
        rw (f, c)
          (promote-others ring r (swap_remove n (s.primary_ring ring)) (s.secondary_ring ring) s h)
    | inr c ↦ elim (Bool-cases (contains n (s.secondary_ring ring))) [
      | inl d ↦ rw (f, c, d) (refl, rw h refl)
      | inr d ↦ rw (f, c, d) (refl, refl)
    ]
  ]
]
