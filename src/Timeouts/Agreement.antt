-- ===== src/Timeouts/Agreement.antt =====
-- The map from times agrees with the times that the entries have.
use lib_meridian.Prelude.{
  ℕ, ◌+◌, ◌≤◌, ◌≡◌, refl, ap, sym, ◌∙◌, true, List, [], ◌∷◌, ◌++◌, Option, none, some, length,
  length-append, if◌then◌else◌, Bool-cases, inl, inr, arith, Eq, ◌==◌,
}
use lib_meridian.Timeval.{Timeval, timeval_key, same_timeval_iff}
use lib_meridian.OrdMap.{find, same, Sorted}
use lib_meridian.OrdMap.Laws.{find-insert, find-erase, insert-Sorted, erase-Sorted, same_refl}
use lib_meridian.BufferWrapper.{push_back}
use lib_meridian.Vector.{count, contains, swap_remove}
use lib_meridian.Vector.Counts.{count-append, count-swap_remove, count-absent}
use lib_meridian.Timeouts.{TimeoutMap, push_timeout, store_or_erase, remove_timeout}

-- The vector of a time.
abbrev pub or_nil {ℓ} : {A : Type ℓ} → Option (List A) → List A
or_nil none = []
or_nil (some vect) = vect

-- How often an entry that is due then stands in the vector of a time.
abbrev pub once_at : Timeval → Option Timeval → ℕ
once_at tv none = 0
once_at tv (some due) = if same due tv then 1 else 0

module _ {ℓ} {K : Type ℓ} ⦃e : Eq K⦄ where
  -- Every entry stands once in the vector of its time and in no other, no vector is empty, and the
  -- times are in order.
  pub record Agree (due : K → Option Timeval) (m : TimeoutMap K) : Type ℓ where
    pub listed : (tv : Timeval) (k : K) → count k (or_nil (find tv m)) ≡ once_at tv (due k)
    pub filled : (tv : Timeval) (vect : List K) → find tv m ≡ some vect → 1 ≤ length vect
    pub ordered : Sorted m

  pub Agree-nil : Agree (λ k. none) []
  unfolding find count
  Agree-nil = record { listed = λ tv k. refl; filled = λ tv vect h. absurd (cc); ordered = tt }

  -- The same entries with the same times.
  pub Agree-same :
      (due due' : K → Option Timeval) (m : TimeoutMap K)
      → ((k : K) → due k ≡ due' k)
      → Agree due m
      → Agree due' m
  Agree-same due due' m h a = record {
    listed = λ tv k. a.listed tv k ∙ ap (once_at tv) (h k);
    filled = a.filled;
    ordered = a.ordered;
  }

  count-nil : (k : K) → count k [] ≡ 0
  unfolding count
  count-nil k = refl

  count-one : (q k : K) → count q (k ∷ []) ≡ (if k == q then 1 else 0)
  unfolding count
  count-one q k = omega arith

  find-push_timeout :
      (tv t : Timeval) (k : K) (m : TimeoutMap K)
      → find t (push_timeout tv k m)
        ≡ (if same t tv then some (or_nil (find tv m) ++ (k ∷ [])) else find t m)
  unfolding push_timeout
  find-push_timeout tv t k m = go (find tv m) refl
    where
      go :
          (o : Option (List K))
          → find tv m ≡ o
          → find t (push_timeout tv k m)
            ≡ (if same t tv then some (or_nil (find tv m) ++ (k ∷ [])) else find t m)
      go none h = rw (push_timeout, h) (find-insert t tv (k ∷ []) m)
      go (some vect) h = rw (push_timeout, h) (find-insert t tv (push_back vect k) m)

  count-push_timeout :
      (tv t : Timeval) (j k : K) (m : TimeoutMap K)
      → count j (or_nil (find t (push_timeout tv k m)))
        ≡ count j (or_nil (find t m)) + (if same tv t then (if k == j then 1 else 0) else 0)
  count-push_timeout tv t j k m =
      ap (λ o. count j (or_nil o)) (find-push_timeout tv t k m) ∙ elim (Bool-cases (same t tv)) [
        | inl g ↦ ground (
          arith,
          g,
          same_timeval_iff tv t,
          count-append j (or_nil (find tv m)) (k ∷ []),
          count-one j k,
          ap (λ x. count j (or_nil (find x m))) ((same_timeval_iff t tv).0 g),
          (same_timeval_iff t tv).0 g,
        )
        | inr g ↦ ground (arith, g, same_timeval_iff tv t, same_timeval_iff t tv)
      ]

  once_at-new :
      (due : K → Option Timeval) (tv t : Timeval) (j k : K)
      → due k ≡ none
      → once_at t (if k == j then some tv else due j)
        ≡ once_at t (due j) + (if same tv t then (if k == j then 1 else 0) else 0)
  once_at-new due tv t j k h = elim (Bool-cases (k == j)) [
    | inl g ↦
        ground (arith, g, h, ap (λ x. once_at t (due x)) ((e.test_iff k j).0 g), ap (once_at t) h)
    | inr g ↦ ground (arith, g)
  ]

  filled-push_timeout :
      (due : K → Option Timeval) (tv t : Timeval) (k : K) (m : TimeoutMap K) (vect : List K)
      → Agree due m
      → find t (push_timeout tv k m) ≡ some vect
      → 1 ≤ length vect
  filled-push_timeout due tv t k m vect a g =
      let f = sym (find-push_timeout tv t k m) ∙ g in
      elim (Bool-cases (same t tv)) [
        | inl s ↦ ground (arith, f, s, length-append (or_nil (find tv m)) (k ∷ []))
        | inr s ↦ ground (arith, f, s, a.filled t vect)
      ]

  push_timeout-Sorted :
      (tv : Timeval) (k : K) (m : TimeoutMap K) → Sorted m → Sorted (push_timeout tv k m)
  unfolding push_timeout
  push_timeout-Sorted tv k m s = go (find tv m) refl
    where
      go : (o : Option (List K)) → find tv m ≡ o → Sorted (push_timeout tv k m)
      go none h = rw (push_timeout, h) (insert-Sorted tv (k ∷ []) m s)
      go (some vect) h = rw (push_timeout, h) (insert-Sorted tv (push_back vect k) m s)

  -- A new entry with its time.
  pub push-Agree :
      (due : K → Option Timeval) (tv : Timeval) (k : K) (m : TimeoutMap K)
      → Agree due m
      → due k ≡ none
      → Agree (λ j. if k == j then some tv else due j) (push_timeout tv k m)
  push-Agree due tv k m a h = record {
    listed = λ t j.
        omega (arith, count-push_timeout tv t j k m, once_at-new due tv t j k h, a.listed t j);
    filled = λ t vect g. filled-push_timeout due tv t k m vect a g;
    ordered = push_timeout-Sorted tv k m a.ordered;
  }

  find-store_or_erase :
      (tv t : Timeval) (vect : List K) (m : TimeoutMap K)
      → or_nil (find t (store_or_erase tv vect m)) ≡ (if same t tv then vect else or_nil (find t m))
  unfolding store_or_erase
  find-store_or_erase tv t [] m =
      ap or_nil (find-erase t tv m)
      ∙ elim (Bool-cases (same t tv)) [ inl g ↦ rw g refl | inr g ↦ rw g refl ]
  find-store_or_erase tv t (x ∷ vect) m =
      ap or_nil (find-insert t tv (x ∷ vect) m)
      ∙ elim (Bool-cases (same t tv)) [ inl g ↦ rw g refl | inr g ↦ rw g refl ]

  filled-store_or_erase :
      (due : K → Option Timeval) (tv t : Timeval) (vect found : List K) (m : TimeoutMap K)
      → Agree due m
      → find t (store_or_erase tv vect m) ≡ some found
      → 1 ≤ length found
  unfolding store_or_erase
  filled-store_or_erase due tv t [] found m a h =
      ground (arith, sym (find-erase t tv m) ∙ h, a.filled t found)
  filled-store_or_erase due tv t (x ∷ vect) found m a h =
      ground (arith, sym (find-insert t tv (x ∷ vect) m) ∙ h, a.filled t found)

  store_or_erase-Sorted :
      (tv : Timeval) (vect : List K) (m : TimeoutMap K)
      → Sorted m
      → Sorted (store_or_erase tv vect m)
  unfolding store_or_erase
  store_or_erase-Sorted tv [] m s = erase-Sorted tv m s
  store_or_erase-Sorted tv (x ∷ vect) m s = insert-Sorted tv (x ∷ vect) m s

  pub due-count :
      (due : K → Option Timeval) (tv : Timeval) (k : K) (m : TimeoutMap K)
      → Agree due m
      → due k ≡ some tv
      → count k (or_nil (find tv m)) ≡ 1
  due-count due tv k m a h = a.listed tv k ∙ ap (once_at tv) h ∙ rw (same_refl tv) refl

  -- An entry that is due at a time is found in the vector of the time.
  pub due-contains :
      (due : K → Option Timeval) (tv : Timeval) (k : K) (m : TimeoutMap K) (vect : List K)
      → Agree due m
      → due k ≡ some tv
      → find tv m ≡ some vect
      → contains k vect ≡ true
  due-contains due tv k m vect a h f = elim (Bool-cases (contains k vect)) [
    | inl c ↦ c
    | inr c ↦ absurd (
        omega
          (arith, due-count due tv k m a h, ap (λ o. count k (or_nil o)) f, count-absent k vect c))
  ]

  count-removed :
      (tv t : Timeval) (j k : K) (vect : List K) (m : TimeoutMap K)
      → find tv m ≡ some vect
      → contains k vect ≡ true
      → count j (or_nil (find t (store_or_erase tv (swap_remove k vect) m)))
          + (if same tv t then (if k == j then 1 else 0) else 0)
        ≡ count j (or_nil (find t m))
  count-removed tv t j k vect m f c =
      let e = ap (count j) (find-store_or_erase tv t (swap_remove k vect) m) in
      elim (Bool-cases (same t tv)) [
        | inl g ↦ ground (
          arith,
          e,
          g,
          same_timeval_iff tv t,
          count-swap_remove j k vect c,
          ap (λ x. count j (or_nil (find x m))) ((same_timeval_iff t tv).0 g),
          (same_timeval_iff t tv).0 g,
          ap (λ o. count j (or_nil o)) f,
        )
        | inr g ↦ ground (arith, e, g, same_timeval_iff tv t, same_timeval_iff t tv)
      ]

  once_at-gone :
      (due : K → Option Timeval) (tv t : Timeval) (j k : K)
      → due k ≡ some tv
      → once_at t (if k == j then none else due j)
          + (if same tv t then (if k == j then 1 else 0) else 0)
        ≡ once_at t (due j)
  once_at-gone due tv t j k h = elim (Bool-cases (k == j)) [
    | inl g ↦
        ground (arith, g, ap (λ x. once_at t (due x)) ((e.test_iff k j).0 g), ap (once_at t) h)
    | inr g ↦ ground (arith, g)
  ]

  -- An entry with its time leaves.
  pub remove-Agree :
      (due : K → Option Timeval) (tv : Timeval) (k : K) (m : TimeoutMap K)
      → Agree due m
      → due k ≡ some tv
      → (m' : TimeoutMap K) × (remove_timeout tv k m ≡ some m')
        × Agree (λ j. if k == j then none else due j) m'
  unfolding remove_timeout
  remove-Agree due tv k m a h = go (find tv m) refl
    where
      go :
          (o : Option (List K))
          → find tv m ≡ o
          → (m' : TimeoutMap K) × (remove_timeout tv k m ≡ some m')
            × Agree (λ j. if k == j then none else due j) m'
      go none f =
          absurd
            (omega (arith, due-count due tv k m a h, ap (λ o. count k (or_nil o)) f, count-nil k))
      go (some vect) f = (
        store_or_erase tv (swap_remove k vect) m,
        rw (remove_timeout, f) refl,
        record {
          listed = λ t j. omega (
            arith,
            count-removed tv t j k vect m f (due-contains due tv k m vect a h f),
            once_at-gone due tv t j k h,
            a.listed t j,
          );
          filled = λ t found g. filled-store_or_erase due tv t (swap_remove k vect) found m a g;
          ordered = store_or_erase-Sorted tv (swap_remove k vect) m a.ordered;
        },
      )
