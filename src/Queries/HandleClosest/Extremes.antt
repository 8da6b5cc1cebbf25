-- ===== src/Queries/HandleClosest/Extremes.antt =====
-- The maximum, the minimum and the average of latencies.
use lib_meridian.Prelude.{
  ℕ, ◌≤◌, ◌≡◌, refl, ap, sym, subst, if_true, if_false, nat_beq_iff, ◌∙◌, true, ◌==◌, nat_eq, List,
  [], ◌∷◌, some, length, map, if◌then◌else◌, Bool-cases, inl, inr, ◌⊎◌, arith, ltb,
}
use lib_meridian.Node.{NodeIdent}
use lib_meridian.OrdMap.{OrdMap}
use lib_meridian.Vector.{contains}
use lib_meridian.Queries.HandleClosest.{
  Numbers, max_from, min_from, total_value, uint_max, to_uint, get_max_and_min_and_average,
  get_max_and_average,
}

-- The latencies themselves.
abbrev pub values : OrdMap NodeIdent ℕ → List ℕ
values m = map (λ x. x.1) m

-- The largest of a value and the latencies.
record Largest (a : ℕ) (m : OrdMap NodeIdent ℕ) (r : ℕ) : Type 0 where
  first : a ≤ r
  bound : (v : ℕ) → contains v (values m) ≡ true → v ≤ r
  there : (r ≡ a) ⊎ (contains r (values m) ≡ true)

max_step :
    (a b : ℕ) (n : NodeIdent) (l : ℕ) (m : OrdMap NodeIdent ℕ) (r : ℕ)
    → a ≤ b
    → l ≤ b
    → (b ≡ a) ⊎ (b ≡ l)
    → Largest b m r
    → Largest a ((n, l) ∷ m) r
unfolding contains
max_step a b n l m r p q w u = record {
  first = omega (arith, p, u.first);
  bound = λ v h. elim (Bool-cases (l == v)) [
    | inl g ↦ omega (arith, q, u.first, (nat_beq_iff l v).0 g)
    | inr g ↦ u.bound v (sym (if_false _ _ g) ∙ h)
  ];
  there = elim u.there [
    | inr h ↦ inr (in_tail r h)
    | inl h ↦ elim w [
      | inl e ↦ inl (h ∙ e)
      | inr e ↦ inr (if_true _ _ ((nat_beq_iff l r).1 (sym (h ∙ e))))
    ]
  ];
}
  where
    in_tail :
        (v : ℕ)
        → contains v (values m) ≡ true
        → (if l == v then true else contains v (values m)) ≡ true
    in_tail v h = ground (arith, h)

max_from-Largest : (a : ℕ) (m : OrdMap NodeIdent ℕ) → Largest a m (max_from a m)
unfolding max_from contains
max_from-Largest a [] = record {
  first = omega arith;
  bound = λ v h. absurd (cc (h));
  there = inl refl;
}
max_from-Largest a ((n, l) ∷ m) = elim (Bool-cases (ltb a l)) [
  | inl g ↦
      subst (λ x. Largest a ((n, l) ∷ m) (max_from x m)) (sym (if_true _ _ g))
        (max_step a l n l m (max_from l m) (ground (arith, g)) (omega arith) (inr refl)
          (max_from-Largest l m))
  | inr g ↦
      subst (λ x. Largest a ((n, l) ∷ m) (max_from x m)) (sym (if_false _ _ g))
        (max_step a a n l m (max_from a m) (omega arith) (ground (arith, g)) (inl refl)
          (max_from-Largest a m))
]

-- The smallest of a value and the latencies.
record Smallest (a : ℕ) (m : OrdMap NodeIdent ℕ) (r : ℕ) : Type 0 where
  first : r ≤ a
  bound : (v : ℕ) → contains v (values m) ≡ true → r ≤ v
  there : (r ≡ a) ⊎ (contains r (values m) ≡ true)

min_step :
    (a b : ℕ) (n : NodeIdent) (l : ℕ) (m : OrdMap NodeIdent ℕ) (r : ℕ)
    → b ≤ a
    → b ≤ l
    → (b ≡ a) ⊎ (b ≡ l)
    → Smallest b m r
    → Smallest a ((n, l) ∷ m) r
unfolding contains
min_step a b n l m r p q w u = record {
  first = omega (arith, p, u.first);
  bound = λ v h. elim (Bool-cases (l == v)) [
    | inl g ↦ omega (arith, q, u.first, (nat_beq_iff l v).0 g)
    | inr g ↦ u.bound v (sym (if_false _ _ g) ∙ h)
  ];
  there = elim u.there [
    | inr h ↦ inr (in_tail r h)
    | inl h ↦ elim w [
      | inl e ↦ inl (h ∙ e)
      | inr e ↦ inr (if_true _ _ ((nat_beq_iff l r).1 (sym (h ∙ e))))
    ]
  ];
}
  where
    in_tail :
        (v : ℕ)
        → contains v (values m) ≡ true
        → (if l == v then true else contains v (values m)) ≡ true
    in_tail v h = ground (arith, h)

min_from-Smallest : (a : ℕ) (m : OrdMap NodeIdent ℕ) → Smallest a m (min_from a m)
unfolding min_from contains
min_from-Smallest a [] = record {
  first = omega arith;
  bound = λ v h. absurd (cc (h));
  there = inl refl;
}
min_from-Smallest a ((n, l) ∷ m) = elim (Bool-cases (ltb l a)) [
  | inl g ↦
      subst (λ x. Smallest a ((n, l) ∷ m) (min_from x m)) (sym (if_true _ _ g))
        (min_step a l n l m (min_from l m) (ground (arith, g)) (omega arith) (inr refl)
          (min_from-Smallest l m))
  | inr g ↦
      subst (λ x. Smallest a ((n, l) ∷ m) (min_from x m)) (sym (if_false _ _ g))
        (min_step a a n l m (min_from a m) (omega arith) (ground (arith, g)) (inl refl)
          (min_from-Smallest a m))
]

-- The answer for a map of latencies of 32 bits that is not empty: the largest and the smallest latency
-- are bounds that occur, and getMaxAndAverage gives the same maximum and average.
pub record Extremes (num : Numbers) (m : OrdMap NodeIdent ℕ) : Type 0 where
  pub max_value : ℕ
  pub min_value : ℕ
  pub avg_value : ℕ
  pub computed : get_max_and_min_and_average num m ≡ some (max_value, min_value, avg_value)
  pub agrees : get_max_and_average num m ≡ some (max_value, avg_value)
  pub max_bound : (v : ℕ) → contains v (values m) ≡ true → v ≤ max_value
  pub max_occurs : contains max_value (values m) ≡ true
  pub min_bound : (v : ℕ) → contains v (values m) ≡ true → min_value ≤ v
  pub min_occurs : contains min_value (values m) ≡ true

contains-head : (x : ℕ) (xs : List ℕ) → contains x (x ∷ xs) ≡ true
unfolding contains
contains-head x xs = ground arith

contains-one : (x v : ℕ) → contains v (x ∷ []) ≡ true → v ≡ x
unfolding contains
contains-one x v h = ground (arith, h)

-- For latencies of 32 bits that are not none at all, getMaxAndMinAndAverage answers with the largest and
-- the smallest of them, and getMaxAndAverage with the same maximum and average.
pub get_max_and_min_and_average_lem :
    (num : Numbers) (m : OrdMap NodeIdent ℕ)
    → 1 ≤ length m
    → ((v : ℕ) → contains v (values m) ≡ true → v ≤ uint_max)
    → Extremes num m
unfolding get_max_and_min_and_average get_max_and_average
get_max_and_min_and_average_lem num [] h k = absurd (omega (arith, h))
get_max_and_min_and_average_lem num ((n, l) ∷ []) h k = record {
  max_value = l;
  min_value = l;
  avg_value = l;
  computed = refl;
  agrees = refl;
  max_bound = λ v c. omega (arith, contains-one l v c);
  max_occurs = contains-head l [];
  min_bound = λ v c. omega (arith, contains-one l v c);
  min_occurs = contains-head l [];
}
get_max_and_min_and_average_lem num ((n, l) ∷ b ∷ m) h k =
    let whole : OrdMap NodeIdent ℕ = (n, l) ∷ b ∷ m in
    let most = max_from-Largest 0 whole in
    let least = min_from-Smallest uint_max whole in
    record {
      max_value = max_from 0 whole;
      min_value = min_from uint_max whole;
      avg_value = to_uint (num.average (total_value whole) (length whole));
      computed = refl;
      agrees = refl;
      max_bound = most.bound;
      max_occurs =
          occurs 0 (max_from 0 whole) most.there
            (λ z. omega (arith, z, most.bound l (contains-head l (values (b ∷ m)))));
      min_bound = least.bound;
      min_occurs = occurs uint_max (min_from uint_max whole) least.there (λ z. omega (
        arith,
        z,
        least.bound l (contains-head l (values (b ∷ m))),
        k l (contains-head l (values (b ∷ m))),
      ));
    }
  where
    occurs :
        (a r : ℕ)
        → (r ≡ a) ⊎ (contains r (values ((n, l) ∷ b ∷ m)) ≡ true)
        → (r ≡ a → l ≡ r)
        → contains r (values ((n, l) ∷ b ∷ m)) ≡ true
    occurs a r (inr c) e = c
    occurs a r (inl z) e =
        ap (λ x. contains x (values ((n, l) ∷ b ∷ m))) (sym (e z))
        ∙ contains-head l (values (b ∷ m))
