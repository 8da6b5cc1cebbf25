-- ===== src/LatencyCache/Validity.antt =====
-- The two maps of a latency cache agree.
use lib_meridian.Prelude.{
  ℕ, suc, ◌≤◌, ◌≡◌, refl, ap, ◌∙◌, ◌==◌, List, [], ◌∷◌, Option, none, some, length, if◌then◌else◌,
  Bool-cases, inl, inr, arith,
}
use lib_meridian.Node.{NodeIdent, node_eq, node_key, same_node_iff}
use lib_meridian.OrdMap.{OrdMap, find, erase, Sorted}
use lib_meridian.OrdMap.Laws.{find-erase, erase-Sorted, length-erase_found, same_refl}
use lib_meridian.Timeval.{Timeval, timeval_key}
use lib_meridian.Timeouts.Agreement.{Agree, Agree-nil, Agree-same, remove-Agree}
use lib_meridian.Vector.{contains}
use lib_meridian.LatencyCache.{LatencyCache, new_latency_cache, erase_entry, erase_entries, without}

abbrev pub time_of : Option (Timeval × ℕ) → Option Timeval
time_of none = none
time_of (some (tv, l)) = some tv

-- When an entry times out.
abbrev pub due : LatencyCache → NodeIdent → Option Timeval
due c n = time_of (find n c.latency_map)

-- The maps agree, and the cache keeps to its size.
pub record IsValid (c : LatencyCache) : Type 0 where
  pub agrees : Agree (due c) c.timeout_map
  pub fits : length c.latency_map ≤ c.max_size
  pub ordered : Sorted c.latency_map

pub new_latency_cache-IsValid : (m p : ℕ) → IsValid (new_latency_cache m p)
unfolding new_latency_cache find
new_latency_cache-IsValid m p = record { agrees = Agree-nil; fits = omega arith; ordered = tt }

-- What eraseEntry leaves.
pub record Dropped (n : NodeIdent) (c d : LatencyCache) : Type 0 where
  pub entries :
      (q : NodeIdent) → find q d.latency_map ≡ (if q == n then none else find q c.latency_map)
  pub max_size : d.max_size ≡ c.max_size
  pub period_us : d.period_us ≡ c.period_us
  pub shorter :
      (e : Timeval × ℕ)
      → find n c.latency_map ≡ some e
      → suc (length d.latency_map) ≤ length c.latency_map
  pub valid : IsValid d

time_of-gone :
    (n q : NodeIdent) (m : OrdMap NodeIdent (Timeval × ℕ))
    → (if n == q then none else time_of (find q m)) ≡ time_of (find q (erase n m))
time_of-gone n q m = elim (Bool-cases (n == q)) [
  | inl g ↦
      ground (arith, g, find-erase q n m, same_node_iff n q, same_refl n, (same_node_iff n q).0 g)
  | inr g ↦ ground (arith, g, find-erase q n m, same_node_iff n q, same_node_iff q n)
]

absent :
    (n q : NodeIdent) (m : OrdMap NodeIdent (Timeval × ℕ))
    → find n m ≡ none
    → find q m ≡ (if q == n then none else find q m)
absent n q m h = elim (Bool-cases (q == n)) [
  | inl g ↦ rw g (ap (λ x. find x m) ((same_node_iff q n).0 g) ∙ h)
  | inr g ↦ rw g refl
]

pub erase_entry_lem :
    (n : NodeIdent) (c : LatencyCache)
    → IsValid c
    → (d : LatencyCache) × (erase_entry n c ≡ some d) × Dropped n c d
unfolding erase_entry
erase_entry_lem n c v = go (find n c.latency_map) refl
  where
    go :
        (o : Option (Timeval × ℕ))
        → find n c.latency_map ≡ o
        → (d : LatencyCache) × (erase_entry n c ≡ some d) × Dropped n c d
    go none h = (
      c,
      rw (erase_entry, h) refl,
      record {
        entries = λ q. absent n q c.latency_map h;
        max_size = refl;
        period_us = refl;
        shorter = λ e k. absurd (cc);
        valid = v;
      },
    )
    go (some (tv, l)) h =
        let (m, removed, agrees) =
          remove-Agree (due c) tv n c.timeout_map v.agrees (ap time_of h) in
        (
          without n m c,
          rw (erase_entry, h, removed) refl,
          record {
            entries = λ q. find-erase q n c.latency_map;
            max_size = refl;
            period_us = refl;
            shorter = λ e k. length-erase_found n e c.latency_map k;
            valid = record {
              agrees =
                  Agree-same (λ j. if n == j then none else due c j) (due (without n m c)) m
                    (λ j. time_of-gone n j c.latency_map) agrees;
              fits = omega (arith, v.fits, length-erase_found n (tv, l) c.latency_map h);
              ordered = erase-Sorted n c.latency_map v.ordered;
            };
          },
        )

pub erase_entries_lem :
    (ns : List NodeIdent) (c : LatencyCache)
    → IsValid c
    → (d : LatencyCache) × (erase_entries ns c ≡ some d)
      × IsValid d
      × ((q : NodeIdent)
          → find q d.latency_map ≡ (if contains q ns then none else find q c.latency_map))
unfolding erase_entries contains
erase_entries_lem [] c v = (c, refl, v, λ q. refl)
erase_entries_lem (n ∷ ns) c v =
    let (d, erased, dropped) = erase_entry_lem n c v in
    let (f, rest, w, gone) = erase_entries_lem ns d dropped.valid in
    (
      f,
      rw (erase_entries, erased) rest,
      w,
      λ q. ground (arith, gone q, dropped.entries q, same_node_iff n q, same_node_iff q n),
    )
