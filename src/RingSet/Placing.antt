-- ===== src/RingSet/Placing.antt =====
-- insertNode behind the update of the rendezvous information: where the node goes.
use lib_meridian.Prelude.{
  ℕ, ◌<◌, ◌≡◌, refl, ap, ◌∙◌, true, false, ◌==◌, nat_eq, Option, none, some, ℤ, arith, Bool-cases,
  inl, inr, nat_beq_iff, length,
}
use lib_meridian.Node.{NodeIdent, node_eq, node_key, same_node_iff}
use lib_meridian.OrdMap.{find, insert}
use lib_meridian.OrdMap.Laws.{find-insert, find-erase, same_refl}
use lib_meridian.RealPacket.{success}
use lib_meridian.RingSet.{
  RingSet, max_num_rings, get_ring_number, erase_node_at, or_abort, push_node, record_latency,
  place_node,
}
use lib_meridian.RingSet.Invariant.{once_in, home, home-find, ring_of, IsValid, get_ring_number-lt}
use lib_meridian.RingSet.Erase.{Erased, erase_node_at-Erased, erase_node_at-others}
use lib_meridian.RingSet.Erasing.{home-Erased, Erased-IsValid, home-member}
use lib_meridian.RingSet.Pushing.{home-recorded, push_node_lem, push_node-full, has_room}

module _ (ceil_log : ℕ → ℕ → ℤ) where
  -- A node that comes into a ring: it has no latency, or stands in another ring, which is not frozen.
  pub data Enters (n : NodeIdent) (ring : ℕ) (s : RingSet) : Type 0 where
    is_new : home ceil_log s n ≡ none → Enters n ring s
    changes_rings :
        (prev : ℕ)
        → home ceil_log s n ≡ some prev
        → (prev == ring) ≡ false
        → s.ring_frozen prev ≡ false
        → Enters n ring s

  -- What an insertion leaves: the node has the latency, and every other node the one that it had.
  pub record Inserted (n : NodeIdent) (l : ℕ) (s t : RingSet) : Type 0 where
    pub valid : IsValid ceil_log t
    pub latency : find n t.node_latency_us ≡ some l
    pub others :
        (q : NodeIdent) → (q == n) ≡ false → find q t.node_latency_us ≡ find q s.node_latency_us

  -- The five ends of insertNode, for the ring set `s` with the rendezvous information stored.
  pub data InsertingAnswer (n : NodeIdent) (l : ℕ) (s : RingSet) (r : Option RingSet) : Type 0 where
    ring_is_frozen :
        s.ring_frozen (get_ring_number ceil_log s l) ≡ true → r ≡ some s → InsertingAnswer n l s r
    old_ring_is_frozen :
        (prev : ℕ)
        → s.ring_frozen (get_ring_number ceil_log s l) ≡ false
        → home ceil_log s n ≡ some prev
        → (prev == get_ring_number ceil_log s l) ≡ false
        → s.ring_frozen prev ≡ true
        → r ≡ some s
        → InsertingAnswer n l s r
    stays_in_ring :
        s.ring_frozen (get_ring_number ceil_log s l) ≡ false
        → home ceil_log s n ≡ some (get_ring_number ceil_log s l)
        → r ≡ some (record_latency n l s)
        → Inserted n l s (record_latency n l s)
        → InsertingAnswer n l s r
    now_in_ring :
        (t : RingSet)
        → s.ring_frozen (get_ring_number ceil_log s l) ≡ false
        → Enters n (get_ring_number ceil_log s l) s
        → has_room (get_ring_number ceil_log s l) s ≡ true
        → r ≡ some t
        → Inserted n l s t
        → InsertingAnswer n l s r
    uses_what_is_gone :
        s.ring_frozen (get_ring_number ceil_log s l) ≡ false
        → Enters n (get_ring_number ceil_log s l) s
        → has_room (get_ring_number ceil_log s l) s ≡ false
        → r ≡ none
        → InsertingAnswer n l s r

  same_ring-IsValid :
      (n : NodeIdent) (l : ℕ) (s : RingSet)
      → IsValid ceil_log s
      → home ceil_log s n ≡ some (get_ring_number ceil_log s l)
      → IsValid ceil_log (record_latency n l s)
  unfolding get_ring_number ring_of
  same_ring-IsValid n l s v h = record {
    primary_fits = v.primary_fits;
    secondary_fits = v.secondary_fits;
    placed = λ r q k. v.placed r q k ∙ ap (once_in r) (same_home q);
  }
    where
      same_home : (q : NodeIdent) → home ceil_log s q ≡ home ceil_log (record_latency n l s) q
      same_home q =
          let to_ring =
            home-recorded ceil_log n q l (get_ring_number ceil_log s l) s (record_latency n l s)
              refl refl refl in
          elim (Bool-cases (n == q)) [
            | inl g ↦ cc (g, to_ring, h, ap (home ceil_log s) ((same_node_iff n q).0 g))
            | inr g ↦ cc (g, to_ring)
          ]

  recorded_others :
      (n q : NodeIdent) (l : ℕ) (s t : RingSet)
      → t.node_latency_us ≡ insert n l s.node_latency_us
      → (q == n) ≡ false
      → find q t.node_latency_us ≡ find q s.node_latency_us
  recorded_others n q l s t e g = ap (find q) e ∙ find-insert q n l s.node_latency_us ∙ rw g refl

  recorded_itself :
      (n : NodeIdent) (l : ℕ) (s t : RingSet)
      → t.node_latency_us ≡ insert n l s.node_latency_us
      → find n t.node_latency_us ≡ some l
  recorded_itself n l s t e =
      ap (find n) e ∙ find-insert n n l s.node_latency_us ∙ rw (same_refl n) refl

  -- What taking a node out of another ring leaves.
  pub record Moved (n : NodeIdent) (prev ring : ℕ) (s m : RingSet) : Type 0 where
    pub erasing : erase_node_at n prev s ≡ (success, m)
    pub erased : Erased n prev s m
    pub valid : IsValid ceil_log m
    pub absent : home ceil_log m n ≡ none
    pub room : has_room ring m ≡ has_room ring s
    pub unmapped : find n m.rendv_mapping ≡ none

  pub moved :
      (n : NodeIdent) (prev ring : ℕ) (s : RingSet)
      → IsValid ceil_log s
      → prev < max_num_rings
      → home ceil_log s n ≡ some prev
      → (prev == ring) ≡ false
      → s.ring_frozen prev ≡ false
      → (m : RingSet) × Moved n prev ring s m
  moved n prev ring s v k at_home x y =
      let (m, erasing, erased) =
        erase_node_at-Erased n prev s y (home-member ceil_log n prev s v k at_home) in
      let other : (ring == prev) ≡ false =
        ground (arith, x, nat_beq_iff ring prev, nat_beq_iff prev ring) in
      let (prim, second) = erase_node_at-others n prev ring s other in
      let prim' : m.primary_ring ring ≡ s.primary_ring ring =
        cc (prim, ap (λ r. r.1.primary_ring ring) erasing) in
      let second' : m.secondary_ring ring ≡ s.secondary_ring ring =
        cc (second, ap (λ r. r.1.secondary_ring ring) erasing) in
      (
        m,
        record {
          erasing = erasing;
          erased = erased;
          valid = Erased-IsValid ceil_log n prev s m v at_home erased;
          absent = home-Erased ceil_log n n prev s m erased ∙ rw (same_refl n) refl;
          room = ground (
            arith,
            ap length prim',
            ap length second',
            erased.primary_size,
            erased.secondary_size,
          );
          unmapped =
              ap (find n) erased.rendvs ∙ find-erase n n s.rendv_mapping ∙ rw (same_refl n) refl;
        },
      )

  -- A node that leaves one ring for another.
  pub replaced :
      (n : NodeIdent) (l prev : ℕ) (s m : RingSet)
      → Moved n prev (get_ring_number ceil_log s l) s m
      → has_room (get_ring_number ceil_log s l) s ≡ true
      → (t : RingSet) × (or_abort
            (erase_node_at n prev s)
            (push_node n l (get_ring_number ceil_log s l))
          ≡ some t)
        × Inserted n l s t
        × (find n t.rendv_mapping ≡ none)
  unfolding or_abort ring_of get_ring_number
  replaced n l prev s m v room =
      let (t, pushed, w, latencies, rendvs) =
        push_node_lem ceil_log n l (get_ring_number ceil_log s l) m v.valid (v.room ∙ room) v.absent
          (ap (λ b. ring_of ceil_log b (some l)) v.erased.exponent_base) in
      (
        t,
        rw (v.erasing) pushed,
        record {
          valid = w;
          latency = recorded_itself n l m t latencies;
          others = λ q g.
              recorded_others n q l m t latencies g
              ∙ ap (find q) v.erased.latencies
              ∙ find-erase q n s.node_latency_us
              ∙ rw g refl;
        },
        ap (find n) rendvs ∙ v.unmapped,
      )

  pub replaced-full :
      (n : NodeIdent) (l prev : ℕ) (s m : RingSet)
      → Moved n prev (get_ring_number ceil_log s l) s m
      → s.ring_frozen (get_ring_number ceil_log s l) ≡ false
      → has_room (get_ring_number ceil_log s l) s ≡ false
      → or_abort (erase_node_at n prev s) (push_node n l (get_ring_number ceil_log s l)) ≡ none
  unfolding or_abort
  replaced-full n l prev s m v h full = rw (v.erasing) (
      push_node-full n l (get_ring_number ceil_log s l) m
        (ap (λ f. f (get_ring_number ceil_log s l)) v.erased.frozen ∙ h) (v.room ∙ full))

  -- insertNode behind the update of the rendezvous information, with its five ends.
  pub place_node_lem :
      (n : NodeIdent) (l : ℕ) (s : RingSet)
      → IsValid ceil_log s
      → InsertingAnswer n l s (place_node ceil_log n l s)
  unfolding place_node ring_of get_ring_number
  place_node_lem n l s v = elim (Bool-cases (s.ring_frozen (get_ring_number ceil_log s l))) [
    | inl h ↦ ring_is_frozen h (rw (place_node, h) refl)
    | inr h ↦ go (find n s.node_latency_us) refl h
  ]
    where
      go :
          (o : Option ℕ)
          → find n s.node_latency_us ≡ o
          → s.ring_frozen (get_ring_number ceil_log s l) ≡ false
          → InsertingAnswer n l s (place_node ceil_log n l s)
      go none e h =
          let absent = home-find ceil_log s n ∙ ap (ring_of ceil_log s.exponent_base) e in
          elim (Bool-cases (has_room (get_ring_number ceil_log s l) s)) [
            | inl room ↦
                let (t, pushed, w, latencies, rendvs) =
                  push_node_lem ceil_log n l (get_ring_number ceil_log s l) s v room absent refl in
                now_in_ring t h (is_new absent) room (rw (place_node, h, e) pushed) (record {
                  valid = w;
                  latency = recorded_itself n l s t latencies;
                  others = λ q g. recorded_others n q l s t latencies g;
                })
            | inr full ↦
                uses_what_is_gone h (is_new absent) full (
                  rw (place_node, h, e)
                    (push_node-full n l (get_ring_number ceil_log s l) s h full))
          ]
      go (some prev) e h =
          elim (Bool-cases (get_ring_number ceil_log s prev == get_ring_number ceil_log s l)) [
            | inl x ↦
                let same =
                  at_home
                  ∙ ap some (
                      (nat_beq_iff (get_ring_number ceil_log s prev)
                          (get_ring_number ceil_log s l)).0
                        x) in
                stays_in_ring h same (rw (place_node, h, e, x) refl) (record {
                  valid = same_ring-IsValid n l s v same;
                  latency = recorded_itself n l s (record_latency n l s) refl;
                  others = λ q g. recorded_others n q l s (record_latency n l s) refl g;
                })
            | inr x ↦ elim (Bool-cases (s.ring_frozen (get_ring_number ceil_log s prev))) [
              | inl y ↦
                  old_ring_is_frozen (get_ring_number ceil_log s prev) h at_home x y
                    (rw (place_node, h, e, x, y) refl)
              | inr y ↦
                  let from = changes_rings (get_ring_number ceil_log s prev) at_home x y in
                  let (m, w) =
                    moved n (get_ring_number ceil_log s prev) (get_ring_number ceil_log s l) s v
                      (get_ring_number-lt ceil_log s prev) at_home x y in
                  elim (Bool-cases (has_room (get_ring_number ceil_log s l) s)) [
                    | inl room ↦
                        let (t, pushed, inserted, lost) =
                          replaced n l (get_ring_number ceil_log s prev) s m w room in
                        now_in_ring t h from room (rw (place_node, h, e, x, y) pushed) inserted
                    | inr full ↦ uses_what_is_gone h from full (
                        rw (place_node, h, e, x, y)
                          (replaced-full n l (get_ring_number ceil_log s prev) s m w h full))
                  ]
            ]
          ]
        where
          at_home : home ceil_log s n ≡ some (get_ring_number ceil_log s prev)
          at_home = home-find ceil_log s n ∙ ap (ring_of ceil_log s.exponent_base) e
