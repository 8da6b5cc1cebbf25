-- ===== src/OrdMap/Subsets.antt =====
-- Two maps of which one has no other keys than the other: with as many entries it has the same keys.
use lib_meridian.Prelude.{
  suc, ◌≤◌, ◌≡◌, refl, ap, sym, ◌∙◌, [], ◌∷◌, none, some, length, if_true, if_false, Bool-cases,
  inl, inr, arith,
}
use lib_meridian.OrdMap.{Key, OrdMap, find, erase, same, precedes, Above, Sorted}
use lib_meridian.OrdMap.Laws.{find-erase, erase-Sorted, same_refl}

module _ {ℓ κ} {K : Type ℓ} {V : Type κ} ⦃k : Key K⦄ where
  pub find-Above : (q : K) (m : OrdMap K V) → Above q m → find q m ≡ none
  unfolding find
  find-Above q [] a = refl
  find-Above q ((j, w) ∷ m) a = elim (Bool-cases (same q j)) [
    | inl g ↦ absurd (cc (k.lt_irrefl q, ap (λ x. precedes q x) ((k.eq.test_iff q j).0 g), a.0))
    | inr g ↦ if_false _ _ g ∙ find-Above q m a.1
  ]

  pub erase-absent : (q : K) (m : OrdMap K V) → find q m ≡ none → erase q m ≡ m
  unfolding find erase
  erase-absent q [] h = refl
  erase-absent q ((j, w) ∷ m) h = elim (Bool-cases (same q j)) [
    | inl g ↦ absurd (cc (h, if_true (some w) (find q m) g))
    | inr g ↦ if_false _ _ g ∙ ap (λ x. (j, w) ∷ x) (erase-absent q m (sym (if_false _ _ g) ∙ h))
  ]

  pub length-erase_ge : (q : K) (m : OrdMap K V) → Sorted m → length m ≤ suc (length (erase q m))
  unfolding erase
  length-erase_ge q [] s = omega arith
  length-erase_ge q ((j, w) ∷ m) s = elim (Bool-cases (same q j)) [
    | inl g ↦
        let gone : find q m ≡ none =
          ap (λ x. find x m) ((k.eq.test_iff q j).0 g) ∙ find-Above j m s.0 in
        omega (
          arith,
          ap length (if_true (erase q m) ((j, w) ∷ erase q m) g),
          ap length (erase-absent q m gone),
        )
    | inr g ↦
        omega
          (arith, ap length (if_false (erase q m) ((j, w) ∷ erase q m) g), length-erase_ge q m s.1)
  ]

module _ {ℓ κ μ} {K : Type ℓ} {V : Type κ} {W : Type μ} ⦃k : Key K⦄ where
  -- Every key of the first map is one of the second.
  abbrev pub Within : OrdMap K V → OrdMap K W → Type (ℓ ⊔ κ ⊔ μ)
  Within m s = (q : K) → find q s ≡ none → find q m ≡ none

  Within-erase :
      (j : K) (w : W) (m : OrdMap K V) (s : OrdMap K W)
      → Within m ((j, w) ∷ s)
      → Within (erase j m) s
  unfolding find
  Within-erase j w m s h q g = find-erase q j m ∙ elim (Bool-cases (same q j)) [
    | inl e ↦ if_true _ _ e
    | inr e ↦ if_false _ _ e ∙ h q (if_false _ _ e ∙ g)
  ]

  Within-nil : (m : OrdMap K V) → Within m [] → length m ≤ 0
  unfolding find
  Within-nil [] h = omega arith
  Within-nil ((j, v) ∷ m) h = absurd (cc (h j refl, if_true (some v) (find j m) (same_refl j)))

  pub length-Within :
      (m : OrdMap K V) (s : OrdMap K W) → Sorted m → Within m s → length m ≤ length s
  length-Within m [] o h = Within-nil m h
  length-Within m ((j, w) ∷ s) o h = omega (
    arith,
    length-erase_ge j m o,
    length-Within (erase j m) s (erase-Sorted j m o) (Within-erase j w m s h),
  )

  found_first :
      (j : K) (w : W) (m : OrdMap K V) (s : OrdMap K W)
      → Sorted m
      → Within m ((j, w) ∷ s)
      → length m ≡ suc (length s)
      → ¬ (find j m ≡ none)
  found_first j w m s o h e g = omega (
    arith,
    e,
    ap length (erase-absent j m g),
    length-Within (erase j m) s (erase-Sorted j m o) (Within-erase j w m s h),
  )

  length-erase_first_key :
      (j : K) (w : W) (m : OrdMap K V) (s : OrdMap K W)
      → Sorted m
      → Within m ((j, w) ∷ s)
      → length m ≡ suc (length s)
      → length (erase j m) ≡ length s
  length-erase_first_key j w m s o h e = omega (
    arith,
    e,
    length-erase_ge j m o,
    length-Within (erase j m) s (erase-Sorted j m o) (Within-erase j w m s h),
  )

  -- As many keys are the same keys.
  pub same_keys :
      (m : OrdMap K V) (s : OrdMap K W)
      → Sorted m
      → Within m s
      → length m ≡ length s
      → (q : K) → find q m ≡ none
      → find q s ≡ none
  unfolding find
  same_keys m [] o h e q g = refl
  same_keys m ((j, w) ∷ s) o h e q g = elim (Bool-cases (same q j)) [
    | inl x ↦
        absurd (found_first j w m s o h e (ap (λ y. find y m) (sym ((k.eq.test_iff q j).0 x)) ∙ g))
    | inr x ↦
        if_false _ _ x
        ∙ same_keys (erase j m) s (erase-Sorted j m o) (Within-erase j w m s h)
            (length-erase_first_key j w m s o h e) q (find-erase q j m ∙ if_false _ _ x ∙ g)
  ]
