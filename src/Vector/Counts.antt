-- ===== src/Vector/Counts.antt =====
-- How often each element occurs after a removal.
use lib_meridian.Prelude.{
  suc, ◌+◌, ◌-◌, ◌≤◌, ◌≡◌, refl, true, false, Eq, ◌==◌, List, [], ◌∷◌, ◌++◌, length, if◌then◌else◌,
  arith,
}
use lib_meridian.Vector.{contains, count, replace_first, erase_first, back, pop_back, swap_remove}

module _ {ℓ} {A : Type ℓ} ⦃e : Eq A⦄ where
  pub count-append : (a : A) (xs ys : List A) → count a (xs ++ ys) ≡ count a xs + count a ys
  unfolding count
  count-append a [] ys = omega arith
  count-append a (x ∷ xs) ys = omega (arith, count-append a xs ys)

  pub count-contains : (a : A) (xs : List A) → contains a xs ≡ true → 1 ≤ count a xs
  unfolding contains count
  count-contains a [] h = cc
  count-contains a (x ∷ xs) h = ground (arith, count-contains a xs)

  pub count-absent : (a : A) (xs : List A) → contains a xs ≡ false → count a xs ≡ 0
  unfolding contains count
  count-absent a [] h = refl
  count-absent a (x ∷ xs) h = ground (arith, count-absent a xs)

  count-replace_first :
      (q a b : A) (xs : List A)
      → contains a xs ≡ true
      → count q (replace_first a b xs) + (if a == q then 1 else 0)
        ≡ count q xs + (if b == q then 1 else 0)
  unfolding contains count replace_first
  count-replace_first q a b [] h = cc
  count-replace_first q a b (x ∷ xs) h =
      ground (arith, e.test_iff x a, count-replace_first q a b xs)

  -- The last element of a vector that is not empty is counted once.
  count-pop_back :
      (q d x : A) (xs : List A)
      → count q (pop_back (x ∷ xs)) + (if back d (x ∷ xs) == q then 1 else 0) ≡ count q (x ∷ xs)
  unfolding count pop_back back
  count-pop_back q d x [] = omega arith
  count-pop_back q d x (y ∷ ys) = omega (arith, count-pop_back q d y ys)

  count-pop_back_replaced :
      (q a d : A) (xs : List A)
      → contains a xs ≡ true
      → count q (pop_back (replace_first a (back d xs) xs)) + (if a == q then 1 else 0) ≡ count q xs
  unfolding contains count replace_first pop_back back
  count-pop_back_replaced q a d [] h = cc
  count-pop_back_replaced q a d (x ∷ []) h = ground (arith, e.test_iff x a)
  count-pop_back_replaced q a d (x ∷ y ∷ ys) h =
      ground
        (arith, e.test_iff x a, count-pop_back q x y ys, count-pop_back_replaced q a x (y ∷ ys))

  -- The removal takes one occurrence of the element and nothing else.
  pub count-swap_remove :
      (q a : A) (xs : List A)
      → contains a xs ≡ true
      → count q (swap_remove a xs) + (if a == q then 1 else 0) ≡ count q xs
  unfolding swap_remove
  count-swap_remove q a xs h = rw h (count-pop_back_replaced q a a xs h)

  pub count-erase_first :
      (q a : A) (xs : List A)
      → contains a xs ≡ true
      → count q (erase_first a xs) + (if a == q then 1 else 0) ≡ count q xs
  unfolding contains count erase_first
  count-erase_first q a [] h = cc
  count-erase_first q a (x ∷ xs) h = ground (arith, e.test_iff x a, count-erase_first q a xs)

  length-replace_first : (a b : A) (xs : List A) → length (replace_first a b xs) ≡ length xs
  unfolding replace_first
  length-replace_first a b [] = refl
  length-replace_first a b (x ∷ xs) = ground (arith, length-replace_first a b xs)

  length-pop_back : (xs : List A) → length (pop_back xs) ≡ length xs - 1
  unfolding pop_back
  length-pop_back [] = omega arith
  length-pop_back (x ∷ []) = omega arith
  length-pop_back (x ∷ y ∷ ys) = omega (arith, length-pop_back (y ∷ ys))

  contains-length : (a : A) (xs : List A) → contains a xs ≡ true → 1 ≤ length xs
  unfolding contains
  contains-length a [] h = cc
  contains-length a (x ∷ xs) h = omega arith

  pub length-swap_remove :
      (a : A) (xs : List A) → contains a xs ≡ true → suc (length (swap_remove a xs)) ≡ length xs
  unfolding swap_remove
  length-swap_remove a xs h = ground (
    arith,
    length-pop_back (replace_first a (back a xs) xs),
    length-replace_first a (back a xs) xs,
    contains-length a xs h,
  )

  pub length-erase_first :
      (a : A) (xs : List A) → contains a xs ≡ true → suc (length (erase_first a xs)) ≡ length xs
  unfolding contains erase_first
  length-erase_first a [] h = cc
  length-erase_first a (x ∷ xs) h = ground (arith, length-erase_first a xs)
