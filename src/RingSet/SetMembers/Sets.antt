-- ===== src/RingSet/SetMembers/Sets.antt =====
-- The set that setRingMembers collects: its members and its size.
use lib_meridian.Prelude.{
  ℕ, suc, ◌+◌, ◌<◌, ◌≤◌, ◌≡◌, refl, ap, sym, ◌∙◌, true, false, ◌||◌, ◌==◌, nat_eq, Option, none,
  some, if◌then◌else◌, ℤ, List, [], ◌∷◌, ◌++◌, length, arith, Bool-cases, inl, inr,
}
use lib_meridian.Node.{NodeIdent, node_key, node_eq, same_node_iff}
use lib_meridian.OrdMap.{find, insert}
use lib_meridian.OrdMap.Laws.{same_refl}
use lib_meridian.Vector.{contains, count, erase_first}
use lib_meridian.Vector.Counts.{
  count-absent, count-contains, count-append, count-erase_first, length-erase_first,
}
use lib_meridian.RingSet.{RingSet, max_num_rings}
use lib_meridian.RingSet.Invariant.{IsValid, home, once_in}
use lib_meridian.RingSet.Queries.{NodeSet, has, set_insert, insert_all}
use lib_meridian.RingSet.Queries.Members.{has-insert_all, has-set_insert}
use lib_meridian.RingSet.SetMembers.{all_in, existing}

pub count-cons :
    (q n : NodeIdent) (ns : List NodeIdent)
    → count q (n ∷ ns) ≡ (if n == q then 1 else 0) + count q ns
unfolding count
count-cons q n ns = refl

pub contains-erase_first :
    (q n : NodeIdent) (ns : List NodeIdent)
    → (n == q) ≡ false
    → contains q ns ≡ true
    → contains q (erase_first n ns) ≡ true
unfolding contains erase_first
contains-erase_first q n [] g h = cc
contains-erase_first q n (x ∷ xs) g h =
    ground (
      arith,
      same_node_iff x n,
      same_node_iff x q,
      same_node_iff n q,
      contains-erase_first q n xs g,
    )

pub contains-cons :
    (q n : NodeIdent) (ns : List NodeIdent) → contains q ns ≡ true → contains q (n ∷ ns) ≡ true
unfolding contains
contains-cons q n ns h = ground (arith, h)

pub contains-head : (n : NodeIdent) (ns : List NodeIdent) → contains n (n ∷ ns) ≡ true
unfolding contains
contains-head n ns = ground (arith, same_node_iff n n)

pub apart :
    (n q : NodeIdent) (ns : List NodeIdent)
    → count q (n ∷ ns) ≤ 1
    → contains q ns ≡ true
    → (n == q) ≡ false
apart n q ns k h = elim (Bool-cases (n == q)) [
  | inl g ↦ absurd (ground (arith, k, count-cons q n ns, count-contains q ns h, g))
  | inr g ↦ g
]

-- A list without duplicates, of nodes of another list of the same length, holds the same nodes.
pub same_counts :
    (ys xs : List NodeIdent)
    → ((q : NodeIdent) → count q ys ≤ 1)
    → ((q : NodeIdent) → contains q ys ≡ true → contains q xs ≡ true)
    → length ys ≡ length xs
    → (q : NodeIdent) → count q ys ≡ count q xs
same_counts [] [] once sub e q = refl
same_counts [] (x ∷ xs) once sub e q = absurd (omega (arith, e))
same_counts (y ∷ ys) xs once sub e q =
    let here = sub y (contains-head y ys) in
    let rest =
      same_counts ys (erase_first y xs) (λ p. omega (arith, once p, count-cons p y ys))
        (λ p h.
          contains-erase_first p y xs (apart y p ys (once p) h) (sub p (contains-cons p y ys h)))
        (omega (arith, e, length-erase_first y xs here)) q in
    omega (arith, rest, count-erase_first q y xs here, count-cons q y ys)

pub length-insert :
    (n : NodeIdent) (m : NodeSet) → has n m ≡ false → length (insert n tt m) ≡ suc (length m)
unfolding has find insert
length-insert n [] h = refl
length-insert n ((j, w) ∷ m) h = ground (arith, h, length-insert n m)

pub length-set_insert :
    (n : NodeIdent) (m : NodeSet) → has n m ≡ false → length (set_insert n tt m) ≡ suc (length m)
unfolding set_insert
length-set_insert n m h = rw h (length-insert n m h)

-- Nodes that are new and differ add their number to the size of a set.
pub length-insert_all :
    (ns : List NodeIdent) (m : NodeSet)
    → ((q : NodeIdent) → count q ns ≤ 1)
    → ((q : NodeIdent) → contains q ns ≡ true → has q m ≡ false)
    → length (insert_all ns m) ≡ length m + length ns
unfolding insert_all set_insert
length-insert_all [] m once fresh = omega arith
length-insert_all (n ∷ ns) m once fresh =
    let new = fresh n (contains-head n ns) in
    omega (
      arith,
      length-insert_all ns (set_insert n tt m) (λ q. omega (arith, once q, count-cons q n ns))
          (λ q h. ground (
            arith,
            has-set_insert q n tt m,
            apart n q ns (once q) h,
            fresh q (contains-cons q n ns h),
          )),
      length-set_insert n m new,
    )

pub insert_all-append :
    (xs ys : List NodeIdent) (m : NodeSet)
    → insert_all (xs ++ ys) m ≡ insert_all ys (insert_all xs m)
unfolding insert_all
insert_all-append [] ys m = refl
insert_all-append (x ∷ xs) ys m = insert_all-append xs ys (set_insert x tt m)

pub all_in-has :
    (m : NodeSet) (ns : List NodeIdent) (q : NodeIdent)
    → all_in m ns ≡ true
    → contains q ns ≡ true
    → has q m ≡ true
unfolding all_in contains
all_in-has m [] q a h = cc
all_in-has m (n ∷ ns) q a h = elim (Bool-cases (n == q)) [
  | inl g ↦ ground (arith, a, ap (λ x. has x m) ((same_node_iff n q).0 g))
  | inr g ↦ ground (arith, a, h, g, all_in-has m ns q)
]

pub contains-append :
    (q : NodeIdent) (xs ys : List NodeIdent)
    → contains q (xs ++ ys) ≡ (contains q xs || contains q ys)
unfolding contains
contains-append q [] ys = refl
contains-append q (x ∷ xs) ys = ground (arith, contains-append q xs ys)

pub has-nil : (q : NodeIdent) → has {V = Unit {0}} q [] ≡ false
unfolding has find
has-nil q = refl

pub has-existing :
    (rs : RingSet) (ring : ℕ) (q : NodeIdent)
    → has q (existing rs ring) ≡ contains q (rs.primary_ring ring ++ rs.secondary_ring ring)
unfolding existing
has-existing rs ring q = ground (
  arith,
  has-insert_all q (rs.primary_ring ring) [],
  has-insert_all q (rs.secondary_ring ring) (insert_all (rs.primary_ring ring) []),
  contains-append q (rs.primary_ring ring) (rs.secondary_ring ring),
  has-nil q,
)

pub once_in-le : (ring : ℕ) (h : Option ℕ) → once_in ring h ≤ 1
once_in-le ring none = omega arith
once_in-le ring (some r) = ground arith

pub length-existing :
    (ceil_log : ℕ → ℕ → ℤ) (rs : RingSet) (ring : ℕ)
    → IsValid ceil_log rs
    → ring < max_num_rings
    → length (existing rs ring) ≡ length (rs.primary_ring ring ++ rs.secondary_ring ring)
unfolding existing
length-existing c rs ring v k =
    let old = rs.primary_ring ring ++ rs.secondary_ring ring in
    sym (ap length (insert_all-append (rs.primary_ring ring) (rs.secondary_ring ring) []))
    ∙ length-insert_all old []
        (λ q. omega (
          arith,
          count-append q (rs.primary_ring ring) (rs.secondary_ring ring),
          v.placed ring q k,
          once_in-le ring (home c rs q),
        ))
        (λ q h. has-nil q)
    ∙ omega arith

pub same_length :
    (ys xs : List NodeIdent) → ((q : NodeIdent) → count q ys ≡ count q xs) → length ys ≡ length xs
unfolding count
same_length [] [] same = refl
same_length [] (x ∷ xs) same = absurd (ground (arith, same x, same_refl x))
same_length (y ∷ ys) xs same = elim (Bool-cases (contains y xs)) [
  | inr g ↦ absurd (ground (arith, same y, same_refl y, count-absent y xs g))
  | inl g ↦ omega (
    arith,
    same_length ys (erase_first y xs)
        (λ q. omega (arith, same q, count-erase_first q y xs g, count-cons q y ys)),
    length-erase_first y xs g,
  )
]

pub has-all_in :
    (m : NodeSet) (ns : List NodeIdent)
    → ((q : NodeIdent) → contains q ns ≡ true → has q m ≡ true)
    → all_in m ns ≡ true
unfolding all_in
has-all_in m [] sub = refl
has-all_in m (n ∷ ns) sub =
    rw (sub n (contains-head n ns)) (has-all_in m ns (λ q h. sub q (contains-cons q n ns h)))
