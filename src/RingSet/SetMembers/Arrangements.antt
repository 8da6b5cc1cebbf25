-- ===== src/RingSet/SetMembers/Arrangements.antt =====
-- Two lists that pass the tests of setRingMembers are an arrangement of the ring, and the converse.
use lib_meridian.Prelude.{
  ℕ, ◌+◌, ◌<◌, ◌≤◌, ◌≡◌, ◌∙◌, true, nat_eq, ℤ, List, ◌++◌, length, length-append, arith,
}
use lib_meridian.Node.{NodeIdent, node_key, node_eq}
use lib_meridian.Vector.{contains, count}
use lib_meridian.Vector.Counts.{count-absent, count-contains, count-append}
use lib_meridian.RingSet.{RingSet, max_num_rings}
use lib_meridian.RingSet.Invariant.{members, IsValid}
use lib_meridian.RingSet.SetMembers.{all_in, existing}
use lib_meridian.RingSet.SetMembers.Sets.{
  same_counts, all_in-has, contains-append, has-existing, length-existing, same_length, has-all_in,
}

-- The members of a ring are the ones of two lists without duplicates that setRingMembers accepts.
pub rearranged :
    (ceil_log : ℕ → ℕ → ℤ) (rs : RingSet) (ring : ℕ) (prim second : List NodeIdent)
    → IsValid ceil_log rs
    → ring < max_num_rings
    → ((q : NodeIdent) → count q prim + count q second ≤ 1)
    → length prim + length second ≡ length (existing rs ring)
    → all_in (existing rs ring) prim ≡ true
    → all_in (existing rs ring) second ≡ true
    → (q : NodeIdent) → count q prim + count q second ≡ members rs ring q
rearranged c rs ring prim second v k once e a b q =
    let old = rs.primary_ring ring ++ rs.secondary_ring ring in
    omega (
      arith,
      same_counts (prim ++ second) old (λ p. omega (arith, once p, count-append p prim second))
          (λ p h. ground (
            arith,
            h,
            contains-append p prim second,
            all_in-has (existing rs ring) prim p a,
            all_in-has (existing rs ring) second p b,
            has-existing rs ring p,
          ))
          (omega (arith, length-append prim second, e, length-existing c rs ring v k)) q,
      count-append q prim second,
      count-append q (rs.primary_ring ring) (rs.secondary_ring ring),
    )

pub counted :
    (q : NodeIdent) (ns old : List NodeIdent)
    → count q ns ≤ count q old
    → contains q ns ≡ true
    → contains q old ≡ true
counted q ns old k h = ground (arith, k, count-contains q ns h, count-absent q old)

pub arranged_sub :
    (rs : RingSet) (ring : ℕ) (ns : List NodeIdent)
    → ((q : NodeIdent) → count q ns ≤ members rs ring q)
    → all_in (existing rs ring) ns ≡ true
arranged_sub rs ring ns k = has-all_in (existing rs ring) ns λ q h.
    has-existing rs ring q
    ∙ counted q ns (rs.primary_ring ring ++ rs.secondary_ring ring)
        (omega (arith, k q, count-append q (rs.primary_ring ring) (rs.secondary_ring ring))) h

pub arranged_length :
    (ceil_log : ℕ → ℕ → ℤ) (rs : RingSet) (ring : ℕ) (prim second : List NodeIdent)
    → IsValid ceil_log rs
    → ring < max_num_rings
    → ((q : NodeIdent) → count q prim + count q second ≡ members rs ring q)
    → length prim + length second ≡ length (existing rs ring)
arranged_length c rs ring prim second v k same =
    let old = rs.primary_ring ring ++ rs.secondary_ring ring in
    omega (
      arith,
      same_length (prim ++ second) old (λ q. omega (
        arith,
        same q,
        count-append q prim second,
        count-append q (rs.primary_ring ring) (rs.secondary_ring ring),
      )),
      length-append prim second,
      length-existing c rs ring v k,
    )
