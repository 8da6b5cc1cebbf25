-- ===== src/RingSet/SetMembers/Rearranged.antt =====
-- A ring that setRingMembers accepts has the members that it had.
use lib_meridian.Prelude.{
  ℕ, ◌+◌, ◌<◌, ◌≤◌, ◌≡◌, refl, Bool, true, false, not, ◌||◌, ◌==◌, nat_eq, nat_beq_iff,
  if◌then◌else◌, ℤ, pos, negsuc, List, length, leb, ltb, arith,
}
use lib_meridian.Node.{NodeIdent, node_key, node_eq}
use lib_meridian.RealPacket.{Status, success, failure}
use lib_meridian.Vector.{count}
use lib_meridian.RingSet.{RingSet, max_num_rings, put}
use lib_meridian.RingSet.Invariant.{members, IsValid, home}
use lib_meridian.RingSet.SetMembers.{all_in, existing, set_ring_members}
use lib_meridian.RingSet.SetMembers.Arrangements.{rearranged, arranged_sub, arranged_length}

if-cases {ℓ κ} :
    {A : Type ℓ} (P : A → Type κ) (c : Bool) {a b : A}
    → (c ≡ true → P a)
    → (c ≡ false → P b)
    → P (if c then a else b)
if-cases P true p q = p refl
if-cases P false p q = q refl

-- The two lists are an arrangement of the members of the ring, and fit.
pub record IsArrangement (ring_num : ℤ) (prim second : List NodeIdent) (s : RingSet) : Type 0 where
  pub ring : ℕ
  pub number : ring_num ≡ pos ring
  pub bound : ring < max_num_rings
  pub primary_fits : length prim ≤ s.primary_size
  pub secondary_fits : length second ≤ s.secondary_size
  pub same : (q : NodeIdent) → count q prim + count q second ≡ members s ring q

-- What an accepted call leaves: the ring has the two lists, the same nodes as before, and nothing else
-- changes.
pub record Rearranged (ceil_log : ℕ → ℕ → ℤ) (ring : ℕ) (prim second : List NodeIdent)
    (s t : RingSet) : Type 0 where
  pub primary : t.primary_ring ≡ put s.primary_ring ring prim
  pub secondary : t.secondary_ring ≡ put s.secondary_ring ring second
  pub same_members : (r : ℕ) (q : NodeIdent) → members t r q ≡ members s r q
  pub latencies : t.node_latency_us ≡ s.node_latency_us
  pub rendvs : t.rendv_mapping ≡ s.rendv_mapping
  pub frozen : t.ring_frozen ≡ s.ring_frozen
  pub valid : IsValid ceil_log t

-- The two answers of setRingMembers.
pub data SettingAnswer (ceil_log : ℕ → ℕ → ℤ) (ring_num : ℤ) (prim second : List NodeIdent)
    (s : RingSet) (r : Status × RingSet) : Type 0 where
  refused :
      ¬ IsArrangement ring_num prim second s
      → r ≡ (failure, s)
      → SettingAnswer ceil_log ring_num prim second s r
  accepted :
      (a : IsArrangement ring_num prim second s) (t : RingSet)
      → r ≡ (success, t)
      → Rearranged ceil_log a.ring prim second s t
      → SettingAnswer ceil_log ring_num prim second s r

accepted_lem :
    (ceil_log : ℕ → ℕ → ℤ) (rs : RingSet) (ring : ℕ) (prim second : List NodeIdent)
    → IsValid ceil_log rs
    → (ltb rs.primary_size (length prim) || ltb rs.secondary_size (length second)) ≡ false
    → ((q : NodeIdent) → count q prim + count q second ≡ members rs ring q)
    → Rearranged ceil_log ring prim second rs (record rs {
      primary_ring = put rs.primary_ring ring prim;
      secondary_ring = put rs.secondary_ring ring second;
    })
unfolding home
accepted_lem c rs ring prim second v fits same = record {
  primary = refl;
  secondary = refl;
  same_members = λ r q. ground (arith, nat_beq_iff r ring, same q);
  latencies = refl;
  rendvs = refl;
  frozen = refl;
  valid = record {
    primary_fits = λ r k. ground (arith, nat_beq_iff r ring, v.primary_fits r k, fits);
    secondary_fits = λ r k. ground (arith, nat_beq_iff r ring, v.secondary_fits r k, fits);
    placed = λ r q k. ground (arith, nat_beq_iff r ring, v.placed r q k, same q);
  };
}

pos_inj : {m n : ℕ} → pos m ≡ pos n → m ≡ n
pos_inj e = cc (e)

-- Each test of setRingMembers holds of an arrangement.
passes :
    (ceil_log : ℕ → ℕ → ℤ) (rs : RingSet) (ring : ℕ) (prim second : List NodeIdent)
    → IsValid ceil_log rs
    → IsArrangement (pos ring) prim second rs
    → (ring < max_num_rings)
      × ((ltb rs.primary_size (length prim) || ltb rs.secondary_size (length second)) ≡ false)
      × (length prim + length second ≡ length (existing rs ring))
      × (all_in (existing rs ring) prim ≡ true)
      × (all_in (existing rs ring) second ≡ true)
passes c rs ring prim second v a =
    let e : ring ≡ a.ring = pos_inj a.number in
    let same : (q : NodeIdent) → count q prim + count q second ≡ members rs ring q =
      λ q. rw e (a.same q) in
    let bound : ring < max_num_rings = omega (arith, e, a.bound) in
    (
      bound,
      ground (arith, a.primary_fits, a.secondary_fits),
      arranged_length c rs ring prim second v bound same,
      arranged_sub rs ring prim (λ q. omega (arith, same q)),
      arranged_sub rs ring second (λ q. omega (arith, same q)),
    )

-- setRingMembers on a well-formed ring set, where no node is given twice, succeeds exactly where the
-- number is one of a ring, each list fits, and the two lists hold the members of this ring. Then the
-- ring has the lists given, every ring has the members that it had, the latencies, the rendezvous nodes
-- and the frozen rings are as before, and the ring set is well formed. Otherwise nothing changes.
pub set_ring_members-IsValid :
    (ceil_log : ℕ → ℕ → ℤ) (rs : RingSet) (ring_num : ℤ) (prim second : List NodeIdent)
    → IsValid ceil_log rs
    → ((q : NodeIdent) → count q prim + count q second ≤ 1)
    → SettingAnswer ceil_log ring_num prim second rs (set_ring_members ring_num prim second rs)
unfolding set_ring_members
set_ring_members-IsValid c rs (negsuc n) prim second v once = refused (λ a. cc (a.number)) refl
set_ring_members-IsValid c rs (pos ring) prim second v once =
    let P = SettingAnswer c (pos ring) prim second rs in
    let p = passes c rs ring prim second v in
    if-cases P (leb max_num_rings ring) (λ h. refused (λ a. ground (arith, h, (p a).0)) refl)
      λ k.
        if-cases P (ltb rs.primary_size (length prim) || ltb rs.secondary_size (length second))
          (λ h. refused (λ a. cc (h, (p a).1)) refl)
          λ fits.
            if-cases P (not (length prim + length second == length (existing rs ring)))
              (λ h. refused (λ a. ground (arith, h, (p a).2)) refl)
              λ e.
                if-cases P (not (all_in (existing rs ring) prim))
                  (λ h. refused (λ a. ground (arith, h, (p a).3)) refl)
                  λ a.
                    if-cases P (not (all_in (existing rs ring) second))
                      (λ h. refused (λ a. ground (arith, h, (p a).4)) refl)
                      λ b.
                        let bound : ring < max_num_rings = ground (arith, k) in
                        let same = λ (q : NodeIdent).
                          rearranged c rs ring prim second v bound once (ground (arith, e))
                            (ground (arith, a)) (ground (arith, b)) q in
                        accepted
                          (record {
                            ring = ring;
                            number = refl;
                            bound = bound;
                            primary_fits = ground (arith, fits);
                            secondary_fits = ground (arith, fits);
                            same = same;
                          })
                          (record rs {
                            primary_ring = put rs.primary_ring ring prim;
                            secondary_ring = put rs.secondary_ring ring second;
                          })
                          refl (accepted_lem c rs ring prim second v fits same)
