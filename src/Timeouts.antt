-- ===== src/Timeouts.antt =====
-- The map from times to vectors of LatencyCache (timeoutMap) and of QueryTable (timeoutQueryMap): who
-- is due at which time.
pub mod Agreement
pub mod First
use lib_meridian.Prelude.{
  ℕ, ◌≡◌, Bool, true, false, Eq, List, [], ◌∷◌, Option, none, some, if◌then◌else◌,
}
use lib_meridian.Timeval.{Timeval, timeval_key}
use lib_meridian.OrdMap.{Key, OrdMap, find, insert, erase}
use lib_meridian.BufferWrapper.{push_back}
use lib_meridian.Vector.{swap_remove, contains}

abbrev pub TimeoutMap {ℓ} : Type ℓ → Type ℓ
TimeoutMap K = OrdMap Timeval (List K)

abbrev pub is_empty {ℓ} : {A : Type ℓ} → List A → Bool
is_empty [] = true
is_empty (x ∷ xs) = false

module _ {ℓ} {K : Type ℓ} ⦃e : Eq K⦄ where
  -- The entry joins the vector of its time, or a new one.
  unfoldable pub push_timeout : Timeval → K → TimeoutMap K → TimeoutMap K
  push_timeout tv k m = elim (find tv m) [
    | none ↦ insert tv (k ∷ []) m
    | some vect ↦ insert tv (push_back vect k) m
  ]

  -- The vector without the entry, which goes with its last one.
  unfoldable pub store_or_erase : Timeval → List K → TimeoutMap K → TimeoutMap K
  store_or_erase tv vect m = if is_empty vect then erase tv m else insert tv vect m

  -- `none` is the assert on a time that has no vector.
  unfoldable pub remove_timeout : Timeval → K → TimeoutMap K → Option (TimeoutMap K)
  remove_timeout tv k m = elim (find tv m) [
    | none ↦ none
    | some vect ↦ some (store_or_erase tv (swap_remove k vect) m)
  ]
