-- ===== src/Queries/HandleClosest/Selection.antt =====
-- handleForward chooses the ring member with the lowest average.
use lib_meridian.Prelude.{
  ℕ, suc, ◌≤◌, ◌≡◌, refl, ap, sym, subst, if_true, if_false, ◌∙◌, true, false, ◌||◌, ◌==◌, nat_eq,
  [], ◌∷◌, Option, none, some, Bool-cases, inl, inr, ◌⊎◌, arith, ltb,
}
use lib_meridian.Node.{NodeIdent, node_key, same_node_iff}
use lib_meridian.OrdMap.{OrdMap, find, Sorted, same}
use lib_meridian.OrdMap.Laws.{same_refl}
use lib_meridian.OrdMap.Subsets.{find-Above}
use lib_meridian.Queries.{zero_node}
use lib_meridian.Queries.HandleClosest.{HandleClosest, Numbers, uint_max, get_max_and_average, Env}
use lib_meridian.Queries.HandleClosest.Steps.{
  lowest, handle_forward, respond_best, respond, forward, latency_threshold,
}

-- The average of the latencies that a member has sent.
abbrev pub average_in : Numbers → Option (OrdMap NodeIdent ℕ) → Option (ℕ × ℕ)
average_in num none = none
average_in num (some latencies) = get_max_and_average num latencies

abbrev pub average_of : Numbers → OrdMap NodeIdent (OrdMap NodeIdent ℕ) → NodeIdent → Option (ℕ × ℕ)
average_of num m n = average_in num (find n m)

-- The best of a start and the members of a map.
pub record Best (num : Numbers) (start : ℕ × NodeIdent) (m : OrdMap NodeIdent (OrdMap NodeIdent ℕ))
    (r : ℕ × NodeIdent) : Type 0 where
  pub no_more : r.0 ≤ start.0
  pub least : (n : NodeIdent) (mx avg : ℕ) → average_of num m n ≡ some (mx, avg) → r.0 ≤ avg
  pub origin : (r ≡ start) ⊎ ((mx : ℕ) × (average_of num m r.1 ≡ some (mx, r.0)))

average_of-head :
    (num : Numbers) (n : NodeIdent) (l : OrdMap NodeIdent ℕ)
    (m : OrdMap NodeIdent (OrdMap NodeIdent ℕ))
    → average_of num ((n, l) ∷ m) n ≡ get_max_and_average num l
unfolding find
average_of-head num n l m = ap (average_in num) (if_true _ _ (same_refl n))

average_of-other :
    (num : Numbers) (n q : NodeIdent) (l : OrdMap NodeIdent ℕ)
    (m : OrdMap NodeIdent (OrdMap NodeIdent ℕ))
    → same q n ≡ false
    → average_of num ((n, l) ∷ m) q ≡ average_of num m q
unfolding find
average_of-other num n q l m h = ap (average_in num) (if_false _ _ h)

average_of-tail :
    (num : Numbers) (n q : NodeIdent) (l : OrdMap NodeIdent ℕ)
    (m : OrdMap NodeIdent (OrdMap NodeIdent ℕ)) (a : ℕ × ℕ)
    → Sorted ((n, l) ∷ m)
    → average_of num m q ≡ some a
    → average_of num ((n, l) ∷ m) q ≡ some a
average_of-tail num n q l m a s h = elim (Bool-cases (same q n)) [
  | inr g ↦ average_of-other num n q l m g ∙ h
  | inl g ↦ absurd (
      cc (
        h,
        ap (average_in num) (ap (λ x. find x m) ((same_node_iff q n).0 g) ∙ find-Above n m s.0),
      ))
]

-- A member without an average, one that is better, and one that is not.
improve :
    (num : Numbers) (start next : ℕ × NodeIdent) (n : NodeIdent) (l : OrdMap NodeIdent ℕ)
    (m : OrdMap NodeIdent (OrdMap NodeIdent ℕ)) (r : ℕ × NodeIdent)
    → Sorted ((n, l) ∷ m)
    → next.0 ≤ start.0
    → ((mx avg : ℕ) → get_max_and_average num l ≡ some (mx, avg) → next.0 ≤ avg)
    → (next ≡ start) ⊎ ((mx : ℕ) × (get_max_and_average num l ≡ some (mx, next.0)) × (next.1 ≡ n))
    → Best num next m r
    → Best num start ((n, l) ∷ m) r
improve num start next n l m r s p q w u = record {
  no_more = omega (arith, p, u.no_more);
  least = λ k mx avg h. elim (Bool-cases (same k n)) [
    | inl g ↦ omega (
      arith,
      u.no_more,
      q mx avg (
          sym (average_of-head num n l m)
          ∙ ap (average_of num ((n, l) ∷ m)) (sym ((same_node_iff k n).0 g))
          ∙ h),
    )
    | inr g ↦ u.least k mx avg (sym (average_of-other num n k l m g) ∙ h)
  ];
  origin = elim u.origin [
    | inr (mx, h) ↦ inr (mx, average_of-tail num n r.1 l m (mx, r.0) s h)
    | inl h ↦ elim w [
      | inl e ↦ inl (h ∙ e)
      | inr (mx, e, here) ↦ inr (
        mx,
        ap (average_of num ((n, l) ∷ m)) (ap (λ x. x.1) h ∙ here)
            ∙ average_of-head num n l m
            ∙ e
            ∙ ap (λ x. some (mx, x.0)) (sym h),
      )
    ]
  ];
}

le_same : (a b : ℕ) → a ≡ b → a ≤ b
le_same a b h = omega (arith, h)

le_start : (a b c : ℕ) → ltb a c ≡ false → a ≡ b → c ≤ b
le_start a b c g h = ground (arith, g, h)

pub lowest-Best :
    (num : Numbers) (start : ℕ × NodeIdent) (m : OrdMap NodeIdent (OrdMap NodeIdent ℕ))
    → Sorted m
    → Best num start m (lowest num start m)
unfolding lowest find
lowest-Best num start [] s = record {
  no_more = omega arith;
  least = λ n mx avg h. absurd (cc (h));
  origin = inl refl;
}
lowest-Best num start ((n, l) ∷ m) s =
    go (get_max_and_average num l) refl (λ x. lowest-Best num x m s.1)
  where
    go :
        (o : Option (ℕ × ℕ))
        → get_max_and_average num l ≡ o
        → ((x : ℕ × NodeIdent) → Best num x m (lowest num x m))
        → Best num start ((n, l) ∷ m) (lowest num start ((n, l) ∷ m))
    go none e rest = subst (Best num start ((n, l) ∷ m)) (sym (rw (lowest, e) refl)) (
        improve num start start n l m (lowest num start m) s (omega arith)
          (λ mx avg h. absurd (cc (e, h))) (inl refl) (rest start))
    go (some (mx, avg)) e rest = elim (Bool-cases (ltb avg start.0)) [
      | inl g ↦ subst (Best num start ((n, l) ∷ m)) (sym (rw (lowest, e, g) refl)) (
          improve num start (avg, n) n l m (lowest num (avg, n) m) s (ground (arith, g))
            (λ x y h. le_same avg y (cc (e, h))) (inr (mx, e, refl)) (rest (avg, n)))
      | inr g ↦ subst (Best num start ((n, l) ∷ m)) (sym (rw (lowest, e, g) refl)) (
          improve num start start n l m (lowest num start m) s (omega arith)
            (λ x y h. le_start avg y start.0 g (cc (e, h))) (inl refl) (rest start))
    ]

-- The decision of handleForward, for the best member and its average.
pub data Decision (e : Env) (q : HandleClosest) (r : ℕ × NodeIdent) : Type 0 where
  -- The member is close enough, and the search goes on there.
  forwards :
      (latencies : OrdMap NodeIdent ℕ)
      → find r.1 q.ring_latencies ≡ some latencies
      → 1 ≤ r.0
      → r.0 ≤ latency_threshold e q
      → handle_forward e q ≡ some (forward e r.1 q)
      → Decision e q r
  -- No member has a lower average than 2^32 - 1, and not even this is above the threshold.
  forwards_to_nobody :
      r ≡ (uint_max, zero_node)
      → uint_max ≤ latency_threshold e q
      → handle_forward e q ≡ some (forward e zero_node q)
      → Decision e q r
  -- It is not, but closer than this node.
  answers_member :
      (latencies : OrdMap NodeIdent ℕ)
      → (r.0 ≡ 0) ⊎ (suc (latency_threshold e q) ≤ r.0)
      → suc r.0 ≤ q.average_lat_us
      → find r.1 q.ring_latencies ≡ some latencies
      → handle_forward e q ≡ some (respond e r.1 latencies q)
      → Decision e q r
  -- This node is the closest.
  answers_self :
      (r.0 ≡ 0) ⊎ (suc (latency_threshold e q) ≤ r.0)
      → q.average_lat_us ≤ r.0
      → handle_forward e q ≡ some (respond e zero_node q.remote_latencies q)
      → Decision e q r

in_map :
    (num : Numbers) (m : OrdMap NodeIdent (OrdMap NodeIdent ℕ)) (n : NodeIdent) (a : ℕ × ℕ)
    → average_of num m n ≡ some a
    → (latencies : OrdMap NodeIdent ℕ) × (find n m ≡ some latencies)
in_map num m n a h = go (find n m) refl
  where
    go :
        (o : Option (OrdMap NodeIdent ℕ))
        → find n m ≡ o
        → (latencies : OrdMap NodeIdent ℕ) × (find n m ≡ some latencies)
    go (some latencies) f = (latencies, f)
    go none f = absurd (cc (h, ap (average_in num) f))

member_there :
    (num : Numbers) (m : OrdMap NodeIdent (OrdMap NodeIdent ℕ)) (r : ℕ × NodeIdent) (a : ℕ)
    → Best num (uint_max, zero_node) m r
    → suc r.0 ≤ a
    → a ≤ uint_max
    → (latencies : OrdMap NodeIdent ℕ) × (find r.1 m ≡ some latencies)
member_there num m r a b p q = elim b.origin [
  | inl h ↦ absurd (omega (arith, p, q, ap (λ x. x.0) h))
  | inr (mx, h) ↦ in_map num m r.1 (mx, r.0) h
]

answered :
    (e : Env) (q : HandleClosest) (r : ℕ × NodeIdent)
    → lowest e.num (uint_max, zero_node) q.ring_latencies ≡ r
    → (r.0 == 0 || ltb (latency_threshold e q) r.0) ≡ true
    → handle_forward e q ≡ respond_best e r.0 r.1 q
unfolding handle_forward
answered e q r l h = rw (handle_forward, l, h) refl

forwarded :
    (e : Env) (q : HandleClosest) (r : ℕ × NodeIdent)
    → lowest e.num (uint_max, zero_node) q.ring_latencies ≡ r
    → (r.0 == 0 || ltb (latency_threshold e q) r.0) ≡ false
    → handle_forward e q ≡ some (forward e r.1 q)
unfolding handle_forward
forwarded e q r l h = rw (handle_forward, l, h) refl

forwarding :
    (e : Env) (q : HandleClosest) (r : ℕ × NodeIdent)
    → Best e.num (uint_max, zero_node) q.ring_latencies r
    → lowest e.num (uint_max, zero_node) q.ring_latencies ≡ r
    → (r.0 == 0 || ltb (latency_threshold e q) r.0) ≡ false
    → Decision e q r
forwarding e q r b l h = elim b.origin [
  | inl k ↦
      forwards_to_nobody k (ground (arith, h, ap (λ x. x.0) k))
        (forwarded e q r l h ∙ ap (λ x. some (forward e x.1 q)) k)
  | inr (mx, k) ↦
      let (latencies, f) = in_map e.num q.ring_latencies r.1 (mx, r.0) k in
      forwards latencies f (ground (arith, h)) (ground (arith, h)) (forwarded e q r l h)
]

pub handle_forward_lem :
    (e : Env) (q : HandleClosest)
    → Sorted q.ring_latencies
    → q.average_lat_us ≤ uint_max
    → (r : ℕ × NodeIdent) × Best e.num (uint_max, zero_node) q.ring_latencies r × Decision e q r
unfolding respond_best
handle_forward_lem e q s a =
    let r = lowest e.num (uint_max, zero_node) q.ring_latencies in
    let b = lowest-Best e.num (uint_max, zero_node) q.ring_latencies s in (r, b, decide r b refl)
  where
    decide :
        (r : ℕ × NodeIdent)
        → Best e.num (uint_max, zero_node) q.ring_latencies r
        → lowest e.num (uint_max, zero_node) q.ring_latencies ≡ r
        → Decision e q r
    decide r b l = elim (Bool-cases (r.0 == 0 || ltb (latency_threshold e q) r.0)) [
      | inr h ↦ forwarding e q r b l h
      | inl h ↦ elim (Bool-cases (ltb r.0 q.average_lat_us)) [
        | inl g ↦
            let (latencies, f) =
              member_there e.num q.ring_latencies r q.average_lat_us b (ground (arith, g)) a in
            answers_member latencies (ground (arith, h)) (ground (arith, g)) f
              (answered e q r l h ∙ rw (respond_best, g, f) refl)
        | inr g ↦
            answers_self (ground (arith, h)) (ground (arith, g))
              (answered e q r l h ∙ rw (respond_best, g) refl)
      ]
    ]
