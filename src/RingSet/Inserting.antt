-- ===== src/RingSet/Inserting.antt =====
-- insertNode on a well-formed ring set.
use lib_meridian.Prelude.{
  ℕ, ◌≡◌, refl, ap, sym, ◌∙◌, false, not, ◌&&◌, ◌==◌, nat_eq, Option, none, some, ℤ, Bool-cases,
  inl, inr, ◌⊎◌,
}
use lib_meridian.Node.{NodeIdent, node_eq, node_key}
use lib_meridian.OrdMap.{find}
use lib_meridian.RingSet.{
  RingSet, get_ring_number, record_latency, store_rendv, place_node, insert_node,
  insert_node_keeping, get_node_latency, rendv_lookup, clamp_ring,
}
use lib_meridian.RingSet.Invariant.{home, home-find, ring_of, IsValid, get_ring_number-lt}
use lib_meridian.RingSet.Pushing.{has_room}
use lib_meridian.RingSet.Placing.{
  InsertingAnswer, ring_is_frozen, old_ring_is_frozen, stays_in_ring, now_in_ring,
  uses_what_is_gone, place_node_lem, replaced, replaced-full, moved,
}

module _ (ceil_log : ℕ → ℕ → ℤ) where
  store_rendv-IsValid :
      (n rend : NodeIdent) (s : RingSet)
      → IsValid ceil_log s
      → IsValid ceil_log (store_rendv n rend s)
  unfolding store_rendv home
  store_rendv-IsValid n rend s v =
      elim (Bool-cases (not (rend.addr == 0) && not (rend.port == 0))) [
        | inl h ↦ rw h (record {
          primary_fits = v.primary_fits;
          secondary_fits = v.secondary_fits;
          placed = v.placed;
        })
        | inr h ↦ rw h v
      ]

  -- The ends of insertNode on a well-formed ring set, each with what brings it about. Where the ring of
  -- the latency is frozen, or the node stands in another ring that is frozen, only the rendezvous
  -- information is stored. Where the node stands in the ring of the latency, only its latency changes
  -- beside that. Otherwise, where the primary or the secondary ring has room, the call returns a
  -- well-formed ring set in which the node has the new latency and the other nodes have theirs; where both
  -- are full, the call has no result.
  pub insert_node_lem :
      (n : NodeIdent) (l : ℕ) (rend : NodeIdent) (s : RingSet)
      → IsValid ceil_log s
      → InsertingAnswer ceil_log n l (store_rendv n rend s) (insert_node ceil_log n l rend s)
  unfolding insert_node
  insert_node_lem n l rend s v =
      place_node_lem ceil_log n l (store_rendv n rend s) (store_rendv-IsValid n rend s v)

  -- A call returns a well-formed ring set, or has no result in an unfrozen ring without room.
  pub data InsertingEnd (l : ℕ) (s : RingSet) (r : Option RingSet) : Type 0 where
    returns : (t : RingSet) → r ≡ some t → IsValid ceil_log t → InsertingEnd l s r
    fails :
        s.ring_frozen (get_ring_number ceil_log s l) ≡ false
        → has_room (get_ring_number ceil_log s l) s ≡ false
        → r ≡ none
        → InsertingEnd l s r

  answer-InsertingEnd :
      (n : NodeIdent) (l : ℕ) (s : RingSet) (r : Option RingSet)
      → IsValid ceil_log s
      → InsertingAnswer ceil_log n l s r
      → InsertingEnd l s r
  answer-InsertingEnd n l s r v (ring_is_frozen h e) = returns s e v
  answer-InsertingEnd n l s r v (old_ring_is_frozen p h k x y e) = returns s e v
  answer-InsertingEnd n l s r v (stays_in_ring h k e w) = returns (record_latency n l s) e w.valid
  answer-InsertingEnd n l s r v (now_in_ring t h x k e w) = returns t e w.valid
  answer-InsertingEnd n l s r v (uses_what_is_gone h x k e) = fails h k e

  store_rendv-keeps :
      (n rend : NodeIdent) (s : RingSet)
      → ((store_rendv n rend s).node_latency_us ≡ s.node_latency_us)
        × ((store_rendv n rend s).ring_frozen ≡ s.ring_frozen)
        × ((store_rendv n rend s).exponent_base ≡ s.exponent_base)
  unfolding store_rendv
  store_rendv-keeps n rend s = elim (Bool-cases (not (rend.addr == 0) && not (rend.port == 0))) [
    | inl h ↦ rw h (refl, refl, refl)
    | inr h ↦ rw h (refl, refl, refl)
  ]

  store_rendv-room :
      (n rend : NodeIdent) (l : ℕ) (s : RingSet)
      → has_room (get_ring_number ceil_log (store_rendv n rend s) l) (store_rendv n rend s)
        ≡ has_room (get_ring_number ceil_log s l) s
  unfolding store_rendv get_ring_number
  store_rendv-room n rend l s = elim (Bool-cases (not (rend.addr == 0) && not (rend.port == 0))) [
    | inl h ↦ rw h refl
    | inr h ↦ rw h refl
  ]

  store_rendv-InsertingEnd :
      (n rend : NodeIdent) (l : ℕ) (s : RingSet) (r : Option RingSet)
      → InsertingEnd l (store_rendv n rend s) r
      → InsertingEnd l s r
  unfolding get_ring_number
  store_rendv-InsertingEnd n rend l s r (returns t e w) = returns t e w
  store_rendv-InsertingEnd n rend l s r (fails h k e) =
      let (latencies, frozen, base) = store_rendv-keeps n rend s in
      fails (cc (frozen, base, h)) (sym (store_rendv-room n rend l s) ∙ k) e

  inserting_end :
      (n : NodeIdent) (l : ℕ) (rend : NodeIdent) (s : RingSet)
      → IsValid ceil_log s
      → InsertingEnd l s (insert_node ceil_log n l rend s)
  inserting_end n l rend s v =
      store_rendv-InsertingEnd n rend l s (insert_node ceil_log n l rend s) (
        answer-InsertingEnd n l (store_rendv n rend s) (insert_node ceil_log n l rend s)
          (store_rendv-IsValid n rend s v) (insert_node_lem n l rend s v))

  -- insertNode on a well-formed ring set, with a rendezvous node or with the one that is stored, returns a
  -- well-formed ring set: every node with a latency stands once in the ring of its latency and in no other
  -- ring, and no ring is larger than its size. It may have no result only where the ring of the latency is
  -- not frozen and its primary and secondary parts are both full.
  pub insert_node-IsValid :
      (n : NodeIdent) (l : ℕ) (rend : NodeIdent) (s : RingSet)
      → IsValid ceil_log s
      → InsertingEnd l s (insert_node ceil_log n l rend s)
        × InsertingEnd l s (insert_node_keeping ceil_log n l s)
  unfolding insert_node_keeping
  insert_node-IsValid n l rend s v = (inserting_end n l rend s v, go (find n s.rendv_mapping) refl)
    where
      go :
          (o : Option NodeIdent)
          → find n s.rendv_mapping ≡ o
          → InsertingEnd l s (insert_node_keeping ceil_log n l s)
      go none e =
          rw (insert_node_keeping, e) (inserting_end n l (record { addr = 0; port = 0 }) s v)
      go (some kept) e = rw (insert_node_keeping, e) (inserting_end n l kept s v)

  place_node-loses_rendv :
      (n : NodeIdent) (l prev_latency : ℕ) (s : RingSet)
      → IsValid ceil_log s
      → find n s.node_latency_us ≡ some prev_latency
      → (get_ring_number ceil_log s prev_latency == get_ring_number ceil_log s l) ≡ false
      → s.ring_frozen (get_ring_number ceil_log s prev_latency) ≡ false
      → s.ring_frozen (get_ring_number ceil_log s l) ≡ false
      → ((t : RingSet) × (place_node ceil_log n l s ≡ some t) × (rendv_lookup t n ≡ none))
        ⊎ ((has_room (get_ring_number ceil_log s l) s ≡ false) × (place_node ceil_log n l s ≡ none))
  unfolding place_node rendv_lookup ring_of get_ring_number
  place_node-loses_rendv n l prev s v e x y h =
      let (m, w) =
        moved ceil_log n (get_ring_number ceil_log s prev) (get_ring_number ceil_log s l) s v
          (get_ring_number-lt ceil_log s prev)
          (home-find ceil_log s n ∙ ap (ring_of ceil_log s.exponent_base) e) x y in
      elim (Bool-cases (has_room (get_ring_number ceil_log s l) s)) [
        | inl room ↦
            let (t, pushed, inserted, lost) =
              replaced ceil_log n l (get_ring_number ceil_log s prev) s m w room in
            inl (t, rw (place_node, h, e, x, y) pushed, lost)
        | inr full ↦ inr (
          full,
          rw (place_node, h, e, x, y)
              (replaced-full ceil_log n l (get_ring_number ceil_log s prev) s m w h full),
        )
      ]

  -- A known node that moves from one unfrozen ring of a well-formed ring set to another has no rendezvous
  -- mapping afterwards, whatever rendezvous node the call was given and whatever mapping there was; or both
  -- parts of the ring that it moves to are full, and the call has no result.
  pub insert_node-loses_rendv :
      (n : NodeIdent) (l prev_latency : ℕ) (rend : NodeIdent) (s : RingSet)
      → IsValid ceil_log s
      → get_node_latency s n ≡ some prev_latency
      → (get_ring_number ceil_log s prev_latency == get_ring_number ceil_log s l) ≡ false
      → s.ring_frozen (get_ring_number ceil_log s prev_latency) ≡ false
      → s.ring_frozen (get_ring_number ceil_log s l) ≡ false
      → ((t : RingSet) × (insert_node ceil_log n l rend s ≡ some t) × (rendv_lookup t n ≡ none))
        ⊎ ((has_room (get_ring_number ceil_log s l) s ≡ false)
            × (insert_node ceil_log n l rend s ≡ none))
  unfolding insert_node get_node_latency get_ring_number
  insert_node-loses_rendv n l prev rend s v e x y h =
      let (latencies, frozen, base) = store_rendv-keeps n rend s in
      elim (place_node-loses_rendv n l prev (store_rendv n rend s) (store_rendv-IsValid n rend s v)
        (ap (find n) latencies ∙ e)
        (ap (λ b. clamp_ring (ceil_log prev b) == clamp_ring (ceil_log l b)) base ∙ x)
        (cc (frozen, base, y)) (cc (frozen, base, h))) [
          | inl done ↦ inl done
          | inr (full, lost) ↦ inr (sym (store_rendv-room n rend l s) ∙ full, lost)
        ]
