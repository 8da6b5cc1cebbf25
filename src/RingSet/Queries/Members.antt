-- ===== src/RingSet/Queries/Members.antt =====
-- Which nodes the collecting operations collect.
use lib_meridian.Prelude.{
  ℕ, zero, suc, ◌+◌, ◌-◌, ◌<◌, ◌≤◌, ◌≡◌, refl, ap, Bool, true, false, ◌&&◌, ◌||◌, ◌==◌, Option,
  none, some, if◌then◌else◌, ℤ, pos, List, [], ◌∷◌, leb, arith, Bool-cases, inl, inr,
}
use lib_meridian.Node.{NodeIdent, node_key, node_eq, same_node_iff}
use lib_meridian.OrdMap.{OrdMap, find}
use lib_meridian.OrdMap.Laws.{find-insert, same_refl}
use lib_meridian.RealPacket.{success}
use lib_meridian.Vector.{contains}
use lib_meridian.Vector.Counts.{count-contains}
use lib_meridian.RingSet.{RingSet, max_num_rings, get_ring_number, get_node_latency}
use lib_meridian.RingSet.Invariant.{in_bounds, IsValid, home, ring_of, get_ring_number-lt}
use lib_meridian.RingSet.Erasing.{once_in-home}
use lib_meridian.RingSet.Queries.{
  NodeSet, has, set_insert, insert_all, members_dump, rendv_or_zero, fill_ring, fill_rings,
  fill_vector, upper_bound, lower_bound,
}

pub has-set_insert :
    {V : Type 0} (q n : NodeIdent) (v : V) (m : OrdMap NodeIdent V)
    → has q (set_insert n v m) ≡ (has q m || n == q)
unfolding has set_insert
has-set_insert q n v m = ground (arith, find-insert q n v m, same_node_iff n q, same_node_iff q n)

pub has-insert_all :
    (q : NodeIdent) (ns : List NodeIdent) (m : NodeSet)
    → has q (insert_all ns m) ≡ (has q m || contains q ns)
unfolding insert_all contains
has-insert_all q [] m = ground arith
has-insert_all q (n ∷ ns) m =
    ground (arith, has-insert_all q ns (set_insert n tt m), has-set_insert q n tt m)

-- membersDump of a ring succeeds, and adds the nodes of the primary and of the secondary ring to the
-- set, and no other.
pub members_dump_lem :
    (rs : RingSet) (ring_num : ℕ) (m : NodeSet)
    → ring_num < max_num_rings
    → (out : NodeSet) × (members_dump (pos ring_num) rs m ≡ some (success, out))
      × ((q : NodeIdent)
          → has q out ≡ (
              has q m
              || contains q (rs.primary_ring ring_num)
              || contains q (rs.secondary_ring ring_num)))
unfolding members_dump
members_dump_lem rs ring_num m k = (
  insert_all (rs.secondary_ring ring_num) (insert_all (rs.primary_ring ring_num) m),
  rw (in_bounds ring_num k) refl,
  λ q. ground (
    arith,
    has-insert_all q (rs.primary_ring ring_num) m,
    has-insert_all q (rs.secondary_ring ring_num) (insert_all (rs.primary_ring ring_num) m),
  ),
)

-- Whether the latency of a node is known and within the bounds.
abbrev pub within : RingSet → ℕ → ℕ → NodeIdent → Bool
within rs lower upper q = elim (get_node_latency rs q) [
  | none ↦ false
  | some l ↦ leb l upper && leb lower l
]

known :
    (ceil_log : ℕ → ℕ → ℤ) (rs : RingSet) (ring : ℕ) (q : NodeIdent)
    → IsValid ceil_log rs
    → ring < max_num_rings
    → contains q (rs.primary_ring ring) ≡ true
    → (l : ℕ) × (get_node_latency rs q ≡ some l)
unfolding get_node_latency home ring_of
known c rs ring q v k h = go (find q rs.node_latency_us) refl (
    once_in-home ring (home c rs q)
      (omega (arith, v.placed ring q k, count-contains q (rs.primary_ring ring) h)))
  where
    go :
        (o : Option ℕ)
        → find q rs.node_latency_us ≡ o
        → home c rs q ≡ some ring
        → (l : ℕ) × (find q rs.node_latency_us ≡ some l)
    go none e x = absurd (cc (ap (ring_of c rs.exponent_base) e, x))
    go (some l) e x = (l, e)

within-known :
    (rs : RingSet) (lower upper : ℕ) (n : NodeIdent) (l : ℕ)
    → get_node_latency rs n ≡ some l
    → within rs lower upper n ≡ (leb l upper && leb lower l)
within-known rs lower upper n l e = rw (within, e) refl

added :
    (rs : RingSet) (lower upper : ℕ) (n : NodeIdent) (l : ℕ) (q : NodeIdent)
    (m : OrdMap NodeIdent NodeIdent) (c o : Bool)
    → get_node_latency rs n ≡ some l
    → o ≡ (
        has q (if leb l upper && leb lower l then set_insert n (rendv_or_zero rs n) m else m)
        || (c && within rs lower upper q))
    → o ≡ (has q m || ((if n == q then true else c) && within rs lower upper q))
added rs lower upper n l q m c o e s = elim (Bool-cases (n == q)) [
  | inl g ↦ ground (
    arith,
    s,
    g,
    has-set_insert q n (rendv_or_zero rs n) m,
    within-known rs lower upper n l e,
    ap (within rs lower upper) ((same_node_iff n q).0 g),
  )
  | inr g ↦ ground (arith, s, g, has-set_insert q n (rendv_or_zero rs n) m)
]

-- What a round of fillVector adds, where the latencies of the members are known.
fill_ring_lem :
    (rs : RingSet) (lower upper : ℕ) (ns : List NodeIdent) (m : OrdMap NodeIdent NodeIdent)
    → ((q : NodeIdent) → contains q ns ≡ true → (l : ℕ) × (get_node_latency rs q ≡ some l))
    → (out : OrdMap NodeIdent NodeIdent) × (fill_ring rs lower upper ns m ≡ some out)
      × ((q : NodeIdent) → has q out ≡ (has q m || (contains q ns && within rs lower upper q)))
unfolding fill_ring contains
fill_ring_lem rs lower upper [] m all = (m, refl, λ q. ground arith)
fill_ring_lem rs lower upper (n ∷ ns) m all =
    let (l, e) = all n (ground (arith, same_refl n)) in
    let (out, filled, spec) =
      fill_ring_lem rs lower upper ns
        (if leb l upper && leb lower l then set_insert n (rendv_or_zero rs n) m else m)
        (λ q h. all q (ground (arith, h))) in
    (
      out,
      rw (fill_ring, e) filled,
      λ q. added rs lower upper n l q m (contains q ns) (has q out) e (spec q),
    )

-- Whether a node stands in one of the `rounds` primary rings from ring `i` on.
abbrev pub in_rings : RingSet → ℕ → ℕ → NodeIdent → Bool
in_rings rs zero i q = false
in_rings rs (suc rounds) i q = contains q (rs.primary_ring i) || in_rings rs rounds (suc i) q

fill_rings_lem :
    (ceil_log : ℕ → ℕ → ℤ) (rs : RingSet) (lower upper rounds i : ℕ)
    (m : OrdMap NodeIdent NodeIdent)
    → IsValid ceil_log rs
    → rounds + i ≤ max_num_rings
    → (out : OrdMap NodeIdent NodeIdent) × (fill_rings rs lower upper rounds i m ≡ some out)
      × ((q : NodeIdent)
          → has q out ≡ (has q m || (in_rings rs rounds i q && within rs lower upper q)))
unfolding fill_rings
fill_rings_lem c rs lower upper zero i m v k = (m, refl, λ q. ground arith)
fill_rings_lem c rs lower upper (suc rounds) i m v k =
    let (m', filled, adds) =
      fill_ring_lem rs lower upper (rs.primary_ring i) m
        (λ q h. known c rs i q v (omega (arith, k)) h) in
    let (out, rest, adds') =
      fill_rings_lem c rs lower upper rounds (suc i) m' v (omega (arith, k)) in
    (out, rw (fill_rings, filled) rest, λ q. ground (arith, adds q, adds' q))

-- fillVector on a well-formed ring set returns, that is, its assert never fails, and adds to the set
-- the nodes of the primary rings from that of the lower to that of the upper bound whose latency is
-- within the bounds, and no other.
pub fill_vector_lem :
    (ceil_log : ℕ → ℕ → ℤ) (rs : RingSet) (upper lower : ℕ) (m : OrdMap NodeIdent NodeIdent)
    → IsValid ceil_log rs
    → (out : OrdMap NodeIdent NodeIdent) × (fill_vector ceil_log upper lower rs m ≡ some out)
      × ((q : NodeIdent)
          → has q out ≡ (
              has q m
              || (in_rings rs
                    (suc (get_ring_number ceil_log rs (upper_bound upper lower))
                      - get_ring_number ceil_log rs (lower_bound upper lower))
                    (get_ring_number ceil_log rs (lower_bound upper lower))
                    q
                  && within rs (lower_bound upper lower) (upper_bound upper lower) q)))
unfolding fill_vector
fill_vector_lem c rs upper lower m v =
    fill_rings_lem c rs (lower_bound upper lower) (upper_bound upper lower)
      (suc (get_ring_number c rs (upper_bound upper lower))
        - get_ring_number c rs (lower_bound upper lower))
      (get_ring_number c rs (lower_bound upper lower)) m v
      (omega (
        arith,
        get_ring_number-lt c rs (upper_bound upper lower),
        get_ring_number-lt c rs (lower_bound upper lower),
      ))
