-- ===== src/Timeouts/First.antt =====
-- The first time of a map from times.
use lib_meridian.Prelude.{
  ◌≤◌, ◌≡◌, refl, ap, ◌∙◌, true, false, List, [], ◌∷◌, Option, none, some, Bool-cases, inl, inr,
  arith, Eq,
}
use lib_meridian.OrdMap.{find, same, precedes, Above}
use lib_meridian.OrdMap.Laws.{same_refl}
use lib_meridian.Timeval.{Timeval, timeval_key}
use lib_meridian.Timeouts.{TimeoutMap}
use lib_meridian.Timeouts.Agreement.{Agree, due-count, or_nil, once_at}
use lib_meridian.Vector.{count}

once_at-due : (tv : Timeval) (o : Option Timeval) → 1 ≤ once_at tv o → o ≡ some tv
once_at-due tv none h = absurd (omega (arith, h))
once_at-due tv (some t) h = elim (Bool-cases (same t tv)) [
  | inl g ↦ ap some ((timeval_key.eq.test_iff t tv).0 g)
  | inr g ↦ absurd (ground (arith, h, g))
]

not-before : (a b : Timeval) → precedes a b ≡ true → precedes b a ≡ false
not-before a b h = elim (Bool-cases (precedes b a)) [
  | inl g ↦ absurd (cc (timeval_key.lt_trans a b a h g, timeval_key.lt_irrefl a))
  | inr g ↦ g
]

module _ {ℓ} {K : Type ℓ} ⦃e : Eq K⦄ where
  find-Above :
      (a t : Timeval) (vect : List K) (m : TimeoutMap K)
      → Above a m
      → find t m ≡ some vect
      → precedes a t ≡ true
  unfolding find
  find-Above a t vect [] s h = absurd (cc)
  find-Above a t vect ((j, w) ∷ m) s h = elim (Bool-cases (same t j)) [
    | inl g ↦ ap (precedes a) ((timeval_key.eq.test_iff t j).0 g) ∙ s.0
    | inr g ↦ find-Above a t vect m s.1 (ground (arith, g, h))
  ]

  due-find :
      (due : K → Option Timeval) (m : TimeoutMap K) (q : K) (t : Timeval)
      → Agree due m
      → due q ≡ some t
      → (vect : List K) × (find t m ≡ some vect)
  unfolding count
  due-find due m q t a h = go (find t m) refl
    where
      go : (o : Option (List K)) → find t m ≡ o → (vect : List K) × (find t m ≡ some vect)
      go (some vect) f = (vect, f)
      go none f = absurd (omega (arith, due-count due t q m a h, ap (λ o. count q (or_nil o)) f))

  find-first :
      (tv t : Timeval) (ns vect : List K) (rest : TimeoutMap K)
      → Above tv rest
      → find t ((tv, ns) ∷ rest) ≡ some vect
      → precedes t tv ≡ false
  unfolding find
  find-first tv t ns vect rest s h = elim (Bool-cases (same t tv)) [
    | inl g ↦
        ap (λ x. precedes x tv) ((timeval_key.eq.test_iff t tv).0 g) ∙ timeval_key.lt_irrefl tv
    | inr g ↦ not-before tv t (find-Above tv t vect rest s (ground (arith, g, h)))
  ]

  -- What the first vector of a map of times holds is due no later than any other.
  pub record Oldest (due : K → Option Timeval) (n : K) : Type ℓ where
    pub when : Timeval
    pub is_due : due n ≡ some when
    pub first : (q : K) (t : Timeval) → due q ≡ some t → precedes t when ≡ false

  pub first_vector :
      (due : K → Option Timeval) (tv : Timeval) (n : K) (ns : List K) (rest : TimeoutMap K)
      → Agree due ((tv, n ∷ ns) ∷ rest)
      → (o : Oldest due n) × (o.when ≡ tv)
  unfolding find count
  first_vector due tv n ns rest a = (
    record {
      when = tv;
      is_due = once_at-due tv (due n) (ground (arith, a.listed tv n, same_refl tv, e.test_iff n n));
      first = λ p s k.
          let (vect, f) = due-find due ((tv, n ∷ ns) ∷ rest) p s a k in
          find-first tv s (n ∷ ns) vect rest a.ordered.0 f;
    },
    refl,
  )

  pub no_empty_vector :
      (due : K → Option Timeval) (tv : Timeval) (rest : TimeoutMap K)
      → ¬ (Agree due ((tv, []) ∷ rest))
  unfolding find
  no_empty_vector due tv rest a = omega (arith, a.filled tv [] (rw (same_refl tv) refl))

  -- A map without times has nothing that is due.
  pub nothing_due : (due : K → Option Timeval) (q : K) → Agree due [] → due q ≡ none
  unfolding find
  nothing_due due q a = go (due q) refl
    where
      go : (o : Option Timeval) → due q ≡ o → due q ≡ none
      go none h = h
      go (some t) h = absurd (cc ((due-find due [] q t a h).1))
