-- ===== src/Queries/HandleClosest/Diagram/Latencies.antt =====
-- handleLatency of HandleClosestGeneric keeps to the diagram.
use lib_meridian.Prelude.{
  ℕ, ◌≤◌, ◌≡◌, refl, ap, sym, subst, if_true, if_false, ◌∙◌, Bool, true, false, not, ◌||◌, ◌==◌,
  nat_eq, List, [], ◌∷◌, Option, none, some, length, if◌then◌else◌, Bool-cases, inl, inr, arith,
}
use lib_meridian.Node.{NodeIdent, node_key}
use lib_meridian.OrdMap.{OrdMap, find, insert}
use lib_meridian.OrdMap.Subsets.{Within}
use lib_meridian.RealPacket.{success, failure}
use lib_meridian.Queries.{Outcome}
use lib_meridian.Queries.HandleClosest.{
  Phase, hc_init, hc_wait_for_direct_ping, hc_indirect_ping, hc_wait_for_fin, HandleClosest,
  uint_max, Env,
}
use lib_meridian.Queries.HandleClosest.Steps.{handle_forward, complete}
use lib_meridian.Node.{NodeIdentLat, node_eq, same_node_iff}
use lib_meridian.OrdMap.Laws.{find-insert, insert-Sorted}
use lib_meridian.RingSet.Queries.{has}
use lib_meridian.Queries.{node_of}
use lib_meridian.Queries.HandleClosest.Handlers.{
  store_latency, direct_one, direct, collect, store_ring_latencies, indirect_one, indirect,
  handle_latency, latency_in,
}
use lib_meridian.Queries.HandleClosest.Diagram.{
  view, ◌⟶◌, IsValid, Ends, Fills, rests-Ends, handle_forward-Ends, send_req_probes-Ends, is_early,
}

-- The latencies of a notice are of 32 bits.
abbrev pub Small : List NodeIdentLat → Type 0
Small [] = Unit
Small (l ∷ ls) = (l.latency_us ≤ uint_max) × Small ls

has-some :
    {V : Type 0} (n : NodeIdent) (m : OrdMap NodeIdent V) → has n m ≡ true → ¬ (find n m ≡ none)
unfolding has
has-some n m h g = ground (arith, h, g)

pub inserted-Within :
    {V W : Type 0} (n : NodeIdent) (v : V) (m : OrdMap NodeIdent V) (s : OrdMap NodeIdent W)
    → Within m s
    → has n s ≡ true
    → Within (insert n v m) s
inserted-Within n v m s w h q g = find-insert q n v m ∙ elim (Bool-cases (q == n)) [
  | inl e ↦ absurd (has-some n s h (ap (λ x. find x s) (sym ((same_node_iff q n).0 e)) ∙ g))
  | inr e ↦ if_false _ _ e ∙ w q g
]

pub inserted_small :
    (n : NodeIdent) (l : ℕ) (m : OrdMap NodeIdent ℕ)
    → l ≤ uint_max
    → ((q : NodeIdent) (k : ℕ) → find q m ≡ some k → k ≤ uint_max)
    → (q : NodeIdent) (k : ℕ) → find q (insert n l m) ≡ some k
    → k ≤ uint_max
inserted_small n l m s h q k f = ground (arith, sym (find-insert q n l m) ∙ f, s, h q k)

store_latency-IsValid :
    (n : NodeIdent) (l : ℕ) (q : HandleClosest)
    → IsValid q
    → has n q.remote_nodes ≡ true
    → l ≤ uint_max
    → IsValid (store_latency n l q)
unfolding store_latency
store_latency-IsValid n l q v h s = record {
  average = v.average;
  latencies_ordered = insert-Sorted n l q.remote_latencies v.latencies_ordered;
  latencies_asked = inserted-Within n l q.remote_latencies q.remote_nodes v.latencies_asked h;
  latencies_small = inserted_small n l q.remote_latencies s v.latencies_small;
  results_ordered = v.results_ordered;
  results_asked = v.results_asked;
  results_late = v.results_late;
}

-- A stored result changes nothing that the diagram shows.
same_view :
    (q r : HandleClosest) (o : Option (Outcome HandleClosest))
    → view q ≡ view r
    → Ends r o
    → Ends q o
same_view q r o e d = record {
  outcome = d.outcome;
  ends = d.ends;
  valid = d.valid;
  moves = subst (λ x. x ⟶ view d.outcome.state) (sym e) d.moves;
}

stored_view : (n : NodeIdent) (l : ℕ) (q : HandleClosest) → view q ≡ view (store_latency n l q)
unfolding store_latency
stored_view n l q = refl

direct_one-Ends :
    (e : Env) (l : NodeIdentLat) (q : HandleClosest)
    → Fills e
    → l.latency_us ≤ uint_max
    → IsValid q
    → Ends q (direct_one e l q)
unfolding direct_one
direct_one-Ends e l q fills s v =
    elim (Bool-cases (not (has (node_of l) q.remote_nodes) || has (node_of l) q.remote_latencies)) [
      | inl g ↦ subst (Ends q) (sym (if_true _ _ g)) (rests-Ends q [] failure v)
      | inr g ↦
          let r = store_latency (node_of l) l.latency_us q in
          let w = store_latency-IsValid (node_of l) l.latency_us q v (ground (arith, g)) s in
          let same = stored_view (node_of l) l.latency_us q in
          subst (Ends q) (sym (if_false _ _ g)) (elim (Bool-cases (complete r)) [
            | inl c ↦
                subst (Ends q) (sym (if_true _ _ c))
                  (same_view q r _ same (send_req_probes-Ends e r fills w))
            | inr c ↦
                subst (Ends q) (sym (if_false _ _ c))
                  (same_view q r _ same (rests-Ends r [] success w))
          ])
    ]

direct-Ends :
    (e : Env) (ls : List NodeIdentLat) (q : HandleClosest)
    → Fills e
    → Small ls
    → IsValid q
    → Ends q (direct e ls q)
unfolding direct
direct-Ends e ls q fills s v = elim (Bool-cases (complete q)) [
  | inl c ↦ subst (Ends q) (sym (if_true _ _ c)) (send_req_probes-Ends e q fills v)
  | inr c ↦ subst (Ends q) (sym (if_false _ _ c)) (notice ls s)
]
  where
    notice :
        (ls : List NodeIdentLat)
        → Small ls
        → Ends q (elim ls [
          | [] ↦ some (record { state = q; actions = []; answer = failure })
          | in_remote ∷ [] ↦ direct_one e in_remote q
          | _ ∷ _ ∷ _ ↦ some (record { state = q; actions = []; answer = failure })
        ])
    notice [] s = rests-Ends q [] failure v
    notice (l ∷ []) s = direct_one-Ends e l q fills s.0 v
    notice (l ∷ k ∷ ls) s = rests-Ends q [] failure v

store_ring_latencies-IsValid :
    (n : NodeIdent) (m : OrdMap NodeIdent ℕ) (q : HandleClosest)
    → IsValid q
    → has n q.ring_members ≡ true
    → q.state_machine ≡ hc_indirect_ping
    → IsValid (store_ring_latencies n m q)
unfolding store_ring_latencies
store_ring_latencies-IsValid n m q v h i = record {
  average = v.average;
  latencies_ordered = v.latencies_ordered;
  latencies_asked = v.latencies_asked;
  latencies_small = v.latencies_small;
  results_ordered = insert-Sorted n m q.ring_latencies v.results_ordered;
  results_asked = inserted-Within n m q.ring_latencies q.ring_members v.results_asked h;
  results_late = λ x. absurd (cc (x, ap is_early i));
}

ring_view :
    (n : NodeIdent) (m : OrdMap NodeIdent ℕ) (q : HandleClosest)
    → view q ≡ view (store_ring_latencies n m q)
unfolding store_ring_latencies
ring_view n m q = refl

ring_phase :
    (n : NodeIdent) (m : OrdMap NodeIdent ℕ) (q : HandleClosest)
    → (store_ring_latencies n m q).state_machine ≡ q.state_machine
unfolding store_ring_latencies
ring_phase n m q = refl

stored-Ends :
    (e : Env) (n : NodeIdent) (m : OrdMap NodeIdent ℕ) (q : HandleClosest)
    → q.state_machine ≡ hc_indirect_ping
    → has n q.ring_members ≡ true
    → IsValid q
    → (b : Bool)
    → Ends q (
        if b
        then handle_forward e (store_ring_latencies n m q)
        else some (record { state = store_ring_latencies n m q; actions = []; answer = success }))
stored-Ends e n m q i h v true =
    let r = store_ring_latencies n m q in
    same_view q r _ (ring_view n m q)
      (handle_forward-Ends e r (ring_phase n m q ∙ i) (store_ring_latencies-IsValid n m q v h i))
stored-Ends e n m q i h v false =
    let r = store_ring_latencies n m q in
    same_view q r _ (ring_view n m q)
      (rests-Ends r [] success (store_ring_latencies-IsValid n m q v h i))

indirect_one-Ends :
    (e : Env) (n : NodeIdent) (results : List NodeIdentLat) (q : HandleClosest)
    → q.state_machine ≡ hc_indirect_ping
    → has n q.ring_members ≡ true
    → IsValid q
    → Ends q (indirect_one e n results q)
unfolding indirect_one
indirect_one-Ends e n results q i h v = go (collect q.remote_nodes results []) refl
  where
    go :
        (o : Option (OrdMap NodeIdent ℕ))
        → collect q.remote_nodes results [] ≡ o
        → Ends q (indirect_one e n results q)
    go none c = subst (Ends q) (sym (rw (indirect_one, c) refl)) (rests-Ends q [] failure v)
    go (some m) c = elim (Bool-cases (length q.remote_nodes == length m)) [
      | inr g ↦ subst (Ends q) (sym (rw (indirect_one, c, g) refl)) (rests-Ends q [] failure v)
      | inl g ↦ subst (Ends q) (sym (rw (indirect_one, c, g) refl)) (
          stored-Ends e n m q i h v (
            length (store_ring_latencies n m q).ring_members
            == length (store_ring_latencies n m q).ring_latencies))
    ]

indirect-Ends :
    (e : Env) (ls : List NodeIdentLat) (q : HandleClosest)
    → q.state_machine ≡ hc_indirect_ping
    → IsValid q
    → Ends q (indirect e ls q)
unfolding indirect
indirect-Ends e [] q i v = rests-Ends q [] failure v
indirect-Ends e (first ∷ results) q i v =
    elim (Bool-cases
      (not (has (node_of first) q.ring_members) || has (node_of first) q.ring_latencies)) [
        | inl g ↦ subst (Ends q) (sym (if_true _ _ g)) (rests-Ends q [] failure v)
        | inr g ↦
            subst (Ends q) (sym (if_false _ _ g))
              (indirect_one-Ends e (node_of first) results q i (ground (arith, g)) v)
      ]

-- A notice of latencies of 32 bits, to a valid query of a node whose rings fail no assert, ends without a
-- failing assert in a valid state, to which the diagram leads.
pub handle_latency-Ends :
    (e : Env) (ls : List NodeIdentLat) (q : HandleClosest)
    → Fills e
    → Small ls
    → IsValid q
    → Ends q (handle_latency e ls q)
unfolding handle_latency latency_in
handle_latency-Ends e ls q fills s v = go q.state_machine refl
  where
    go : (p : Phase) → q.state_machine ≡ p → Ends q (latency_in e ls q p)
    go hc_init p = rests-Ends q [] success v
    go hc_wait_for_direct_ping p = direct-Ends e ls q fills s v
    go hc_indirect_ping p = indirect-Ends e ls q p v
    go hc_wait_for_fin p = rests-Ends q [] success v
