-- ===== src/OrdMap/Laws.antt =====
-- Lookup after an update, and the order of the entries.
use mathlib.Core.List.{foldl}
use lib_meridian.Prelude.{
  ◌≤◌, suc, length, ◌≡◌, refl, sym, ◌∙◌, true, [], ◌∷◌, ◌++◌, none, some, append_assoc, append-nil,
  if◌then◌else◌, arith,
}
use lib_meridian.OrdMap.{Key, same, precedes, OrdMap, find, insert, erase, Above, Sorted, Under}

pub same_refl {ℓ} : {K : Type ℓ} ⦃k : Key K⦄ (a : K) → same a a ≡ true
same_refl ⦃k⦄ a = (k.eq.test_iff a a).1 refl

module _ {ℓ κ} {K : Type ℓ} {V : Type κ} ⦃k : Key K⦄ where
  pub find-insert :
      (q j : K) (v : V) (m : OrdMap K V)
      → find q (insert j v m) ≡ (if same q j then some v else find q m)
  unfolding find insert
  find-insert q j v [] = refl
  find-insert q j v ((i, w) ∷ m) =
      ground (arith, k.eq.test_iff q j, k.eq.test_iff j i, k.eq.test_iff q i, find-insert q j v m)

  pub find-erase :
      (q j : K) (m : OrdMap K V) → find q (erase j m) ≡ (if same q j then none else find q m)
  unfolding find erase
  find-erase q j [] = ground arith
  find-erase q j ((i, w) ∷ m) =
      ground (arith, k.eq.test_iff q j, k.eq.test_iff j i, k.eq.test_iff q i, find-erase q j m)

  Above-trans : (a b : K) (m : OrdMap K V) → precedes a b ≡ true → Above b m → Above a m
  Above-trans a b [] h s = tt
  Above-trans a b ((j, w) ∷ m) h s = (k.lt_trans a b j h s.0, Above-trans a b m h s.1)

  Above-insert :
      (a q : K) (v : V) (m : OrdMap K V) → precedes a q ≡ true → Above a m → Above a (insert q v m)
  unfolding insert
  Above-insert a q v [] h s = (h, tt)
  Above-insert a q v ((j, w) ∷ m) h s = ground (arith, Above-insert a q v m)

  -- An insertion keeps the order.
  pub insert-Sorted : (q : K) (v : V) (m : OrdMap K V) → Sorted m → Sorted (insert q v m)
  unfolding insert
  insert-Sorted q v [] s = (tt, tt)
  insert-Sorted q v ((j, w) ∷ m) s = ground (
    arith,
    k.eq.test_iff q j,
    k.lt_total q j,
    Above-trans q j m,
    Above-insert j q v m,
    insert-Sorted q v m,
  )

  -- A key behind all others goes to the end.
  pub insert_last : (q : K) (v : V) (m : OrdMap K V) → Under q m → insert q v m ≡ m ++ ((q, v) ∷ [])
  unfolding insert
  insert_last q v [] u = refl
  insert_last q v ((j, w) ∷ m) u =
      ground (
        arith,
        k.eq.test_iff q j,
        k.lt_irrefl j,
        k.lt_irrefl q,
        k.lt_trans q j q,
        insert_last q v m,
      )

  Under-snoc :
      (q j : K) (w : V) (m : OrdMap K V)
      → Under q m
      → precedes j q ≡ true
      → Under q (m ++ ((j, w) ∷ []))
  Under-snoc q j w [] u h = (h, tt)
  Under-snoc q j w ((i, x) ∷ m) u h = (u.0, Under-snoc q j w m u.1 h)

  -- Every key of `m` comes before every key of `n`.
  abbrev Split : OrdMap K V → OrdMap K V → Type 0
  Split m [] = Unit
  Split m ((j, w) ∷ n) = Under j m × Split m n

  Split-snoc :
      (m n : OrdMap K V) (j : K) (w : V) → Split m n → Above j n → Split (m ++ ((j, w) ∷ [])) n
  Split-snoc m [] j w s a = tt
  Split-snoc m ((i, x) ∷ n) j w s a = (Under-snoc i j w m s.0 a.0, Split-snoc m n j w s.1 a.1)

  abbrev pub insert_entry : OrdMap K V → K × V → OrdMap K V
  insert_entry m (q, v) = insert q v m

  foldl-insert : (m n : OrdMap K V) → Split m n → Sorted n → foldl insert_entry m n ≡ m ++ n
  foldl-insert m [] s o = sym (append-nil m)
  foldl-insert m ((j, w) ∷ n) s o = rw (insert_last j w m s.0) (
      foldl-insert (m ++ ((j, w) ∷ [])) n (Split-snoc m n j w s.1 o.0) o.1
      ∙ append_assoc m ((j, w) ∷ []) n)

  Split-nil : (n : OrdMap K V) → Split [] n
  Split-nil [] = tt
  Split-nil ((j, w) ∷ n) = (tt, Split-nil n)

  -- Filling a map from its own entries gives the map.
  pub foldl-insert-Sorted : (n : OrdMap K V) → Sorted n → foldl insert_entry [] n ≡ n
  foldl-insert-Sorted n o = foldl-insert [] n (Split-nil n) o

module _ {ℓ κ} {K : Type ℓ} {V : Type κ} ⦃k : Key K⦄ where
  Above-erase : (a q : K) (m : OrdMap K V) → Above a m → Above a (erase q m)
  unfolding erase
  Above-erase a q [] s = tt
  Above-erase a q ((j, w) ∷ m) s = ground (arith, Above-erase a q m)

  -- A removal keeps the order.
  pub erase-Sorted : (q : K) (m : OrdMap K V) → Sorted m → Sorted (erase q m)
  unfolding erase
  erase-Sorted q [] s = tt
  erase-Sorted q ((j, w) ∷ m) s = ground (arith, Above-erase j q m, erase-Sorted q m)

  -- A new key makes the map longer by one, and the removal of a key that is there makes it shorter.
  pub length-insert_new :
      (q : K) (v : V) (m : OrdMap K V) → find q m ≡ none → length (insert q v m) ≡ suc (length m)
  unfolding find insert
  length-insert_new q v [] h = refl
  length-insert_new q v ((j, w) ∷ m) h = ground (arith, h, length-insert_new q v m)

  pub length-erase_le : (q : K) (m : OrdMap K V) → length (erase q m) ≤ length m
  unfolding erase
  length-erase_le q [] = omega arith
  length-erase_le q ((j, w) ∷ m) = ground (arith, length-erase_le q m)

  pub length-erase_found :
      (q : K) (v : V) (m : OrdMap K V) → find q m ≡ some v → suc (length (erase q m)) ≤ length m
  unfolding find erase
  length-erase_found q v [] h = cc
  length-erase_found q v ((j, w) ∷ m) h =
      ground (arith, h, length-erase_le q m, length-erase_found q v m)
