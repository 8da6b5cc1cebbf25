-- ===== src/RingSet/Replacement/Swaps.antt =====
-- What the swap of eligibleForReplacement leaves.
use lib_meridian.Prelude.{
  ℕ, suc, ◌+◌, ◌<◌, ◌≤◌, ◌≡◌, refl, ◌⊎◌, Bool, true, false, not, ◌&&◌, ◌==◌, nat_eq, Option, none,
  some, if◌then◌else◌, ℤ, pos, arith, List, [], ◌∷◌, ◌++◌, length, length-append, Bool-cases, inl,
  inr, nat_beq_iff, ltb,
}
use lib_meridian.Node.{NodeIdent, node_eq, node_key}
use lib_meridian.Vector.{count}
use lib_meridian.Vector.Counts.{count-append}
use lib_meridian.RingSet.Invariant.{in_bounds, members, IsValid, home}
use lib_meridian.RingSet.{RingSet, max_num_rings, is_prim_ring_full}
use lib_meridian.RingSet.Replacement.{
  needs_rendv, num_eligible, next_eligible, swap_members, swap_rings, eligible_for_replacement,
}

-- What the inner loop finds.
record Found (needs : NodeIdent → Bool) (xs skipped : List NodeIdent) (found : NodeIdent)
    (rest : List NodeIdent) : Type 0 where
  parts :
      (q : NodeIdent)
      → count q xs ≡ count q skipped + ((if found == q then 1 else 0) + count q rest)
  direct : needs found ≡ false
  eligible : num_eligible needs xs ≡ suc (num_eligible needs rest)
  lengths : length xs ≡ length skipped + suc (length rest)

next_eligible_lem :
    (needs : NodeIdent → Bool) (xs : List NodeIdent)
    → ((next_eligible needs xs ≡ none) × (num_eligible needs xs ≡ 0))
      ⊎ ((skipped : List NodeIdent) × (found : NodeIdent) × (rest : List NodeIdent) × (next_eligible
              needs xs
            ≡ some (skipped, found, rest))
          × Found needs xs skipped found rest)
unfolding next_eligible num_eligible count
next_eligible_lem needs [] = inl (refl, refl)
next_eligible_lem needs (x ∷ xs) = elim (Bool-cases (needs x)) [
  | inl h ↦ elim (next_eligible_lem needs xs) [
    | inl (e, k) ↦ inl (rw (h, e) refl, rw h (omega (arith, k)))
    | inr (skipped, found, rest, e, f) ↦ inr (
      x ∷ skipped,
      found,
      rest,
      rw (h, e) refl,
      record {
        parts = λ q. omega (arith, f.parts q);
        direct = f.direct;
        eligible = rw h (omega (arith, f.eligible));
        lengths = omega (arith, f.lengths);
      },
    )
  ]
  | inr h ↦ inr (
    [],
    x,
    xs,
    rw h refl,
    record {
      parts = λ q. omega arith;
      direct = h;
      eligible = rw h (omega arith);
      lengths = omega arith;
    },
  )
]

num_eligible-length :
    (needs : NodeIdent → Bool) (ns : List NodeIdent) → num_eligible needs ns ≤ length ns
unfolding num_eligible
num_eligible-length needs [] = omega arith
num_eligible-length needs (n ∷ ns) = ground (arith, num_eligible-length needs ns)

-- What the outer loop leaves of the two lists.
record Swapped (needs : NodeIdent → Bool) (ps before behind : List NodeIdent)
    (r : List NodeIdent × List NodeIdent) : Type 0 where
  parts :
      (q : NodeIdent) → count q r.0 + count q r.1 ≡ count q ps + (count q before + count q behind)
  primary_length : length r.0 ≡ length ps
  secondary_length : length r.1 ≡ length before + length behind
  direct :
      length ps ≤ num_eligible needs ps + num_eligible needs behind
      → num_eligible needs r.0 ≡ length ps

swap_members_lem :
    (needs : NodeIdent → Bool) (ps before behind : List NodeIdent)
    → Swapped needs ps before behind (swap_members needs ps before behind)
unfolding swap_members num_eligible count
swap_members_lem needs [] before behind = record {
  parts = λ q. omega (arith, count-append q before behind);
  primary_length = refl;
  secondary_length = length-append before behind;
  direct = λ _. refl;
}
swap_members_lem needs (p ∷ ps) before behind = elim (Bool-cases (needs p)) [
  | inl h ↦ elim (next_eligible_lem needs behind) [
    | inl (e, k) ↦
        let s = swap_members_lem needs ps (before ++ behind) [] in
        rw (swap_members, h, e)
          (record {
            parts = λ q. omega (arith, s.parts q, count-append q before behind);
            primary_length = omega (arith, s.primary_length);
            secondary_length = omega (arith, s.secondary_length, length-append before behind);
            direct = λ j. absurd (ground (arith, j, h, k, num_eligible-length needs ps));
          })
    | inr (skipped, found, rest, e, f) ↦
        let s = swap_members_lem needs ps (before ++ (skipped ++ (p ∷ []))) rest in
        rw (swap_members, h, e)
          (record {
            parts = λ q. omega (
              arith,
              s.parts q,
              f.parts q,
              count-append q before (skipped ++ (p ∷ [])),
              count-append q skipped (p ∷ []),
            );
            primary_length = omega (arith, s.primary_length);
            secondary_length = omega (
              arith,
              s.secondary_length,
              f.lengths,
              length-append before (skipped ++ (p ∷ [])),
              length-append skipped (p ∷ []),
            );
            direct = λ j. ground (arith, s.direct (ground (arith, j, h, f.eligible)), f.direct);
          })
  ]
  | inr h ↦
      let s = swap_members_lem needs ps before behind in
      rw (swap_members, h)
        (record {
          parts = λ q. omega (arith, s.parts q);
          primary_length = omega (arith, s.primary_length);
          secondary_length = s.secondary_length;
          direct = λ j. ground (arith, s.direct (ground (arith, j, h)), h);
        })
]

if-both {ℓ κ} :
    {A : Type ℓ} (P : A → Type κ) (c : Bool) {a b : A} → P a → P b → P (if c then a else b)
if-both P true p q = p
if-both P false p q = q

full_and_spare :
    (rs : RingSet) (ring_num : ℕ)
    → length (rs.primary_ring ring_num) ≡ rs.primary_size
    → 1 ≤ length (rs.secondary_ring ring_num)
    → not (is_prim_ring_full rs ring_num && ltb 0 (length (rs.secondary_ring ring_num))) ≡ false
unfolding is_prim_ring_full
full_and_spare rs ring_num full z = ground (arith, full, z)

equal_sizes : (a b : ℕ) → a ≡ b → (ltb b a ≡ false) × ((a == b) ≡ true)
equal_sizes a b e = (ground (arith, e), (nat_beq_iff a b).1 e)

module _ (ceil_log : ℕ → ℕ → ℤ) where
  swapped-IsValid :
      (rs : RingSet) (ring_num : ℕ)
      → IsValid ceil_log rs
      → IsValid ceil_log (swap_rings ring_num rs)
  unfolding home count
  swapped-IsValid rs ring_num v =
      let s =
        swap_members_lem (needs_rendv rs) (rs.primary_ring ring_num) []
          (rs.secondary_ring ring_num) in
      record {
        primary_fits =
            λ r k. ground (arith, nat_beq_iff r ring_num, v.primary_fits r k, s.primary_length);
        secondary_fits =
            λ r k. ground (arith, nat_beq_iff r ring_num, v.secondary_fits r k, s.secondary_length);
        placed = λ r q k. ground (arith, nat_beq_iff r ring_num, v.placed r q k, s.parts q);
      }

  -- The ring set is well formed, with the latencies of `rs`.
  abbrev Kept : RingSet → Option (Bool × RingSet) → Type 0
  Kept rs r =
      (b : Bool) × (t : RingSet) × (r ≡ some (b, t))
      × IsValid ceil_log t
      × (t.node_latency_us ≡ rs.node_latency_us)

  -- eligibleForReplacement on any of the ten rings of a well-formed ring set returns, and leaves a
  -- well-formed ring set, in which every node has the latency that it had.
  pub eligible_for_replacement-IsValid :
      (rs : RingSet) (ring_num : ℕ)
      → IsValid ceil_log rs
      → ring_num < max_num_rings
      → (b : Bool) × (t : RingSet) × (eligible_for_replacement (pos ring_num) rs ≡ some (b, t))
        × IsValid ceil_log t
        × (t.node_latency_us ≡ rs.node_latency_us)
  unfolding eligible_for_replacement
  eligible_for_replacement-IsValid rs ring_num v k =
      let eligible =
        num_eligible (needs_rendv rs) (rs.primary_ring ring_num)
        + num_eligible (needs_rendv rs) (rs.secondary_ring ring_num) in
      rw (in_bounds ring_num k) (
        if-both (Kept rs) (rs.ring_frozen ring_num) unchanged (
          if-both (Kept rs)
            (not (is_prim_ring_full rs ring_num && ltb 0 (length (rs.secondary_ring ring_num))))
            unchanged
            (if-both (Kept rs) (ltb rs.primary_size eligible) (true, rs, refl, v, refl)
              (if-both (Kept rs) (eligible == rs.primary_size)
                (false, swap_rings ring_num rs, refl, swapped-IsValid rs ring_num v, refl)
                unchanged))))
    where
      unchanged : Kept rs (some (false, rs))
      unchanged = (false, rs, refl, v, refl)

-- Where a ring is not frozen, its primary ring is full, its secondary ring is not empty, and exactly
-- as many of its members as the primary ring has places need no rendezvous node, then
-- eligibleForReplacement answers false and leaves a primary ring in which no member needs one, while
-- every node stays in the ring as often as it was.
pub eligible_for_replacement-swaps :
    (rs : RingSet) (ring_num : ℕ)
    → ring_num < max_num_rings
    → rs.ring_frozen ring_num ≡ false
    → length (rs.primary_ring ring_num) ≡ rs.primary_size
    → 1 ≤ length (rs.secondary_ring ring_num)
    → num_eligible (needs_rendv rs) (rs.primary_ring ring_num)
        + num_eligible (needs_rendv rs) (rs.secondary_ring ring_num)
      ≡ rs.primary_size
    → (t : RingSet) × (eligible_for_replacement (pos ring_num) rs ≡ some (false, t))
      × (t.rendv_mapping ≡ rs.rendv_mapping)
      × (num_eligible (needs_rendv rs) (t.primary_ring ring_num) ≡ length (t.primary_ring ring_num))
      × (length (t.primary_ring ring_num) ≡ rs.primary_size)
      × ((q : NodeIdent) → members t ring_num q ≡ members rs ring_num q)
unfolding eligible_for_replacement is_prim_ring_full count
eligible_for_replacement-swaps rs ring_num k u full z e =
    let s =
      swap_members_lem (needs_rendv rs) (rs.primary_ring ring_num) []
        (rs.secondary_ring ring_num) in
    let (below, level) =
      equal_sizes
        (num_eligible (needs_rendv rs) (rs.primary_ring ring_num)
          + num_eligible (needs_rendv rs) (rs.secondary_ring ring_num))
        rs.primary_size e in
    (
      swap_rings ring_num rs,
      rw (in_bounds ring_num k, u, full_and_spare rs ring_num full z, below, level) refl,
      refl,
      ground (
        arith,
        nat_beq_iff ring_num ring_num,
        s.direct (omega (arith, full, e)),
        s.primary_length,
      ),
      ground (arith, nat_beq_iff ring_num ring_num, s.primary_length, full),
      λ q. ground (arith, nat_beq_iff ring_num ring_num, s.parts q),
    )
