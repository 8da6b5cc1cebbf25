-- ===== src/RingSet/Pushing.antt =====
-- The end of insertNode: room for the node, and its place in the ring.
use lib_meridian.Prelude.{
  ℕ, ◌+◌, ◌<◌, ◌≡◌, refl, ap, ◌∙◌, true, false, ◌==◌, nat_eq, none, some, if◌then◌else◌, ℤ, arith,
  length, length-append, Bool-cases, inl, inr, nat_beq_iff, List, [], ◌∷◌, ltb, leb, Bool, ◌||◌,
}
use lib_meridian.Node.{NodeIdent, node_eq, node_key, same_node_iff}
use lib_meridian.OrdMap.{OrdMap, find, insert}
use lib_meridian.OrdMap.Laws.{find-insert, same_refl}
use lib_meridian.BufferWrapper.{push_back}
use lib_meridian.Vector.{contains}
use lib_meridian.Vector.Counts.{count-append}
use lib_meridian.RingSet.{
  RingSet, max_num_rings, put, erase_front, make_room, push_node, record_latency,
}
use lib_meridian.RingSet.Invariant.{members, once_in, home, home-find, ring_of, IsValid}
use lib_meridian.RingSet.Erase.{here, count-one}
use lib_meridian.RingSet.Erasing.{beq_comm}

-- `t` is `s` with `n` added to `ring`, at this latency.
pub record Added (n : NodeIdent) (latency_us ring : ℕ) (s t : RingSet) : Type 0 where
  pub counts : (r : ℕ) (q : NodeIdent) → members t r q ≡ members s r q + here n ring r q
  pub latencies : t.node_latency_us ≡ insert n latency_us s.node_latency_us
  pub exponent_base : t.exponent_base ≡ s.exponent_base

module _ (ceil_log : ℕ → ℕ → ℤ) where
  pub home-recorded :
      (n q : NodeIdent) (l ring : ℕ) (s t : RingSet)
      → t.node_latency_us ≡ insert n l s.node_latency_us
      → t.exponent_base ≡ s.exponent_base
      → ring_of ceil_log s.exponent_base (some l) ≡ some ring
      → home ceil_log t q ≡ (if n == q then some ring else home ceil_log s q)
  home-recorded n q l ring s t latencies base h = elim (Bool-cases (n == q)) [
    | inl g ↦ cc (
      g,
      h,
      home-find ceil_log t q,
      latencies,
      base,
      find-insert q n l s.node_latency_us,
      (same_node_iff n q).0 g,
      same_refl n,
    )
    | inr g ↦ cc (
      g,
      home-find ceil_log t q,
      home-find ceil_log s q,
      latencies,
      base,
      find-insert q n l s.node_latency_us,
      beq_comm n q,
    )
  ]

  pub Added-placed :
      (n : NodeIdent) (l ring : ℕ) (s t : RingSet)
      → IsValid ceil_log s
      → home ceil_log s n ≡ none
      → ring_of ceil_log s.exponent_base (some l) ≡ some ring
      → Added n l ring s t
      → (r : ℕ) (q : NodeIdent) → r < max_num_rings
      → members t r q ≡ once_in r (home ceil_log t q)
  Added-placed n l ring s t v absent h a r q k = elim (Bool-cases (n == q)) [
    | inl g ↦ ground (
      arith,
      a.counts r q,
      v.placed r q k,
      home-recorded n q l ring s t a.latencies a.exponent_base h,
      nat_beq_iff r ring,
      nat_beq_iff ring r,
      absent,
      ap (home ceil_log s) ((same_node_iff n q).0 g),
    )
    | inr g ↦ ground (
      arith,
      a.counts r q,
      v.placed r q k,
      home-recorded n q l ring s t a.latencies a.exponent_base h,
    )
  ]

-- There is room for a node in the primary or the secondary ring.
abbrev pub has_room : ℕ → RingSet → Bool
has_room ring s =
    ltb (length (s.primary_ring ring)) s.primary_size
    || ltb (length (s.secondary_ring ring)) s.secondary_size

front_stands : (f : NodeIdent) (sec : List NodeIdent) → contains f (f ∷ sec) ≡ true
unfolding contains
front_stands f sec = ground (arith, same_refl f)

erase_front-unfrozen :
    (ring : ℕ) (s : RingSet) → s.ring_frozen ring ≡ false → erase_front ring s ≡ none
unfolding erase_front
erase_front-unfrozen ring s u = go (s.secondary_ring ring) refl
  where
    go : (sec : List NodeIdent) → s.secondary_ring ring ≡ sec → erase_front ring s ≡ none
    go [] e = rw (erase_front, e) refl
    go (f ∷ sec) e = rw (erase_front, e, u, front_stands f sec) (ground arith)

-- Both rings are full: the secondary member to be removed is used after it is gone.
pub push_node-full :
    (n : NodeIdent) (l ring : ℕ) (s : RingSet)
    → s.ring_frozen ring ≡ false
    → has_room ring s ≡ false
    → push_node n l ring s ≡ none
unfolding push_node make_room
push_node-full n l ring s u h =
    let p : ltb (length (s.primary_ring ring)) s.primary_size ≡ false = ground (arith, h) in
    let q : leb s.secondary_size (length (s.secondary_ring ring)) ≡ true = ground (arith, h) in
    rw (push_node, p, make_room, q, erase_front-unfrozen ring s u) refl

module _ (ceil_log : ℕ → ℕ → ℤ) where
  primary-Added :
      (n : NodeIdent) (l ring : ℕ) (s : RingSet)
      → Added n l ring s (
          record_latency n l (record s {
            primary_ring = put s.primary_ring ring (push_back (s.primary_ring ring) n);
          }))
  primary-Added n l ring s = record {
    counts = λ r q.
        ground
          (arith, nat_beq_iff r ring, count-append q (s.primary_ring ring) (n ∷ []), count-one q n);
    latencies = refl;
    exponent_base = refl;
  }

  secondary-Added :
      (n : NodeIdent) (l ring : ℕ) (s : RingSet)
      → Added n l ring s (
          record_latency n l (record s {
            secondary_ring = put s.secondary_ring ring (push_back (s.secondary_ring ring) n);
          }))
  secondary-Added n l ring s = record {
    counts = λ r q.
        ground (
          arith,
          nat_beq_iff r ring,
          count-append q (s.secondary_ring ring) (n ∷ []),
          count-one q n,
        );
    latencies = refl;
    exponent_base = refl;
  }

  recorded : (n : NodeIdent) (l : ℕ) (m : OrdMap NodeIdent ℕ) → find n (insert n l m) ≡ some l
  recorded n l m = find-insert n n l m ∙ rw (same_refl n) refl

  -- The node is placed, whichever ring has room.
  pub push_node_lem :
      (n : NodeIdent) (l ring : ℕ) (s : RingSet)
      → IsValid ceil_log s
      → has_room ring s ≡ true
      → home ceil_log s n ≡ none
      → ring_of ceil_log s.exponent_base (some l) ≡ some ring
      → (t : RingSet) × (push_node n l ring s ≡ some t)
        × IsValid ceil_log t
        × (t.node_latency_us ≡ insert n l s.node_latency_us)
        × (t.rendv_mapping ≡ s.rendv_mapping)
  unfolding push_node make_room
  push_node_lem n l ring s v room absent at_ring =
      elim (Bool-cases (ltb (length (s.primary_ring ring)) s.primary_size)) [
        | inl h ↦
            let t = record_latency n l (record s {
              primary_ring = put s.primary_ring ring (push_back (s.primary_ring ring) n);
            }) in
            (
              t,
              rw (push_node, h) refl,
              record {
                primary_fits = λ r j. ground (
                  arith,
                  nat_beq_iff r ring,
                  v.primary_fits r j,
                  length-append (s.primary_ring ring) (n ∷ []),
                );
                secondary_fits = v.secondary_fits;
                placed =
                    Added-placed ceil_log n l ring s t v absent at_ring (primary-Added n l ring s);
              },
              refl,
              refl,
            )
        | inr h ↦
            let g : leb s.secondary_size (length (s.secondary_ring ring)) ≡ false =
              ground (arith, h, room) in
            let t = record_latency n l (record s {
              secondary_ring = put s.secondary_ring ring (push_back (s.secondary_ring ring) n);
            }) in
            (
              t,
              rw (push_node, h, make_room, g) refl,
              record {
                primary_fits = v.primary_fits;
                secondary_fits = λ r j. ground (
                  arith,
                  nat_beq_iff r ring,
                  v.secondary_fits r j,
                  g,
                  length-append (s.secondary_ring ring) (n ∷ []),
                );
                placed =
                    Added-placed ceil_log n l ring s t v absent at_ring
                      (secondary-Added n l ring s);
              },
              refl,
              refl,
            )
      ]
