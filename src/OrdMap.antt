-- ===== src/OrdMap.antt =====
-- std::map and std::set as the source uses them: the entries in the order of their keys.
pub mod Laws
pub mod Subsets
use lib_meridian.Prelude.{
  ℕ, ◌≡◌, ◌↔◌, Bool, true, false, not, Eq, ◌==◌, List, [], ◌∷◌, Option, none, some, All,
  if◌then◌else◌,
}

-- A key type: its equality, and the comparison object that orders the map.
pub record Key {ℓ} (K : Type ℓ) : Type ℓ where
  pub eq : Eq K
  pub lt : K → K → Bool
  pub lt_trans : (a b c : K) → lt a b ≡ true → lt b c ≡ true → lt a c ≡ true
  pub lt_irrefl : (a : K) → lt a a ≡ false
  pub lt_total : (a b : K) → lt a b ≡ false → eq.test a b ≡ false → lt b a ≡ true

abbrev pub same {ℓ} : {K : Type ℓ} ⦃k : Key K⦄ → K → K → Bool
same ⦃k⦄ a b = k.eq.test a b

abbrev pub precedes {ℓ} : {K : Type ℓ} ⦃k : Key K⦄ → K → K → Bool
precedes ⦃k⦄ a b = k.lt a b

abbrev pub OrdMap {ℓ κ} : Type ℓ → Type κ → Type (ℓ ⊔ κ)
OrdMap K V = List (K × V)

module _ {ℓ κ} {K : Type ℓ} {V : Type κ} ⦃k : Key K⦄ where
  unfoldable pub find : K → OrdMap K V → Option V
  find q [] = none
  find q ((j, w) ∷ m) = if same q j then some w else find q m

  -- `m[q] = v`.
  unfoldable pub insert : K → V → OrdMap K V → OrdMap K V
  insert q v [] = (q, v) ∷ []
  insert q v ((j, w) ∷ m) =
      if same q j
      then (q, v) ∷ m
      else if precedes q j
      then (q, v) ∷ (j, w) ∷ m
      else (j, w) ∷ insert q v m

  unfoldable pub erase : K → OrdMap K V → OrdMap K V
  erase q [] = []
  erase q ((j, w) ∷ m) = if same q j then erase q m else (j, w) ∷ erase q m

  -- Every key of the map comes after `q`.
  abbrev pub Above : K → OrdMap K V → Type 0
  Above q [] = Unit
  Above q ((j, w) ∷ m) = (precedes q j ≡ true) × Above q m

  -- The keys are in strictly increasing order.
  abbrev pub Sorted : OrdMap K V → Type 0
  Sorted [] = Unit
  Sorted ((j, w) ∷ m) = Above j m × Sorted m

  -- Every key of the map comes before `q`.
  abbrev pub Under : K → OrdMap K V → Type 0
  Under q [] = Unit
  Under q ((j, w) ∷ m) = (precedes j q ≡ true) × Under q m
