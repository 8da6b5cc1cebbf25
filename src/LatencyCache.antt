-- ===== src/LatencyCache.antt =====
-- class LatencyCache of LatencyCache.h and LatencyCache.cpp: measured latencies that time out, in two
-- maps, and never more than maxSize of them. The time of the day is an argument, and timeradd of
-- <sys/time.h> a parameter. A failing assert and the use of an entry that is not there are `none`.
pub mod Validity
pub mod Eviction
pub mod Insertion
pub mod Clearing
use lib_meridian.Prelude.{
  ℕ, ◌/◌, ◌%◌, ◌≡◌, Bool, ◌==◌, nat_eq, List, [], ◌∷◌, Option, none, some, length, leb, ltb,
  if◌then◌else◌,
}
use lib_meridian.Node.{NodeIdent, node_eq, node_key}
use lib_meridian.OrdMap.{OrdMap, find, insert, erase}
use lib_meridian.Timeval.{Timeval, timed_out, normalize_time, timeval_key}
use lib_meridian.Timeouts.{TimeoutMap, push_timeout, remove_timeout}

pub record LatencyCache : Type 0 where
  pub timeout_map : TimeoutMap NodeIdent
  pub latency_map : OrdMap NodeIdent (Timeval × ℕ)
  pub max_size : ℕ
  pub period_us : ℕ

unfoldable pub new_latency_cache : ℕ → ℕ → LatencyCache
new_latency_cache in_max_size in_period_us = record {
  timeout_map = [];
  latency_map = [];
  max_size = in_max_size;
  period_us = in_period_us;
}

-- `none` is the answer -1.
unfoldable pub get_latency : Timeval → NodeIdent → LatencyCache → Option ℕ
get_latency now in_node c = elim (find in_node c.latency_map) [
  | none ↦ none
  | some (s1, latency_us) ↦ if timed_out s1 (normalize_time now) then none else some latency_us
]

abbrev pub without : NodeIdent → TimeoutMap NodeIdent → LatencyCache → LatencyCache
without in_node m c = record c { timeout_map = m; latency_map = erase in_node c.latency_map }

-- It always answers 0.
unfoldable pub erase_entry : NodeIdent → LatencyCache → Option LatencyCache
erase_entry in_node c = elim (find in_node c.latency_map) [
  | none ↦ some c
  | some (tv, _) ↦ elim (remove_timeout tv in_node c.timeout_map) [
    | none ↦ none
    | some m ↦ some (without in_node m c)
  ]
]

-- The first entry of the first vector.
unfoldable pub oldest : TimeoutMap NodeIdent → Option NodeIdent
oldest [] = none
oldest ((tv, []) ∷ rest) = none
oldest ((tv, n ∷ ns) ∷ rest) = some n

-- The room for a new entry.
unfoldable pub evict : LatencyCache → Option LatencyCache
evict c =
    if leb c.max_size (length c.latency_map)
    then (elim (oldest c.timeout_map) [ none ↦ none | some tmp ↦ erase_entry tmp c ])
    else some c

abbrev pub offset : ℕ → Timeval
offset period_us = record { tv_sec = period_us / 1000000; tv_usec = period_us % 1000000 }

unfoldable pub store_entry : Timeval → NodeIdent → ℕ → LatencyCache → LatencyCache
store_entry next_time_out in_node latency_us c = record c {
  timeout_map = push_timeout next_time_out in_node c.timeout_map;
  latency_map = insert in_node (next_time_out, latency_us) c.latency_map;
}

infixl 5 ◌then_do◌
abbrev pub ◌then_do◌ :
    Option LatencyCache → (LatencyCache → Option LatencyCache) → Option LatencyCache
none then_do f = none
(some c) then_do f = f c

-- The destructor, up to its two asserts.
unfoldable pub erase_entries : List NodeIdent → LatencyCache → Option LatencyCache
erase_entries [] c = some c
erase_entries (n ∷ ns) c = erase_entry n c then_do erase_entries ns

unfoldable pub all_entries : OrdMap NodeIdent (Timeval × ℕ) → List NodeIdent
all_entries [] = []
all_entries ((n, entry) ∷ m) = n ∷ all_entries m

unfoldable pub clear : LatencyCache → Option LatencyCache
clear c = erase_entries (all_entries c.latency_map) c

module _ (timeradd : Timeval → Timeval → Timeval) where
  unfoldable pub deadline : Timeval → LatencyCache → Timeval
  deadline now c = normalize_time (timeradd now (offset c.period_us))

  unfoldable pub insert_measurement : Timeval → NodeIdent → ℕ → LatencyCache → Option LatencyCache
  insert_measurement now in_node latency_us c =
      if c.max_size == 0
      then some c
      else (erase_entry in_node c then_do evict then_do λ c'.
          some (store_entry (deadline now c') in_node latency_us c'))
