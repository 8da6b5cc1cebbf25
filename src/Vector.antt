-- ===== src/Vector.antt =====
-- The idioms on std::vector and std::deque that the source repeats: search by equality, removal by
-- moving the last element into the gap, and removal from the middle.
pub mod Counts
use lib_meridian.Prelude.{ℕ, ◌+◌, Bool, true, false, ◌||◌, Eq, ◌==◌, List, [], ◌∷◌, if◌then◌else◌}

module _ {ℓ} {A : Type ℓ} ⦃e : Eq A⦄ where
  unfoldable pub contains : A → List A → Bool
  contains a [] = false
  contains a (x ∷ xs) = if x == a then true else contains a xs

  -- How often an element occurs.
  unfoldable pub count : A → List A → ℕ
  count a [] = 0
  count a (x ∷ xs) = (if x == a then 1 else 0) + count a xs

  -- The first occurrence of `a` is overwritten by `b`.
  unfoldable pub replace_first : A → A → List A → List A
  replace_first a b [] = []
  replace_first a b (x ∷ xs) = if x == a then b ∷ xs else x ∷ replace_first a b xs

  -- erase(it) at the first occurrence.
  unfoldable pub erase_first : A → List A → List A
  erase_first a [] = []
  erase_first a (x ∷ xs) = if x == a then xs else x ∷ erase_first a xs

-- back(), where `d` stands for what an empty vector has.
unfoldable pub back {ℓ} : {A : Type ℓ} → A → List A → A
back d [] = d
back d (x ∷ xs) = back x xs

unfoldable pub pop_back {ℓ} : {A : Type ℓ} → List A → List A
pop_back [] = []
pop_back (x ∷ []) = []
pop_back (x ∷ y ∷ ys) = x ∷ pop_back (y ∷ ys)

-- `v[i] = v.back(); v.pop_back();` at the first `i` with v[i] equal to `a`.
unfoldable pub swap_remove {ℓ} : {A : Type ℓ} ⦃e : Eq A⦄ → A → List A → List A
swap_remove a xs = if contains a xs then pop_back (replace_first a (back a xs) xs) else xs
