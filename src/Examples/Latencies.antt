-- ===== src/Examples/Latencies.antt =====
-- Latency caches.
use lib_meridian.Prelude.{
  suc, ◌+◌, ◌-◌, ◌≡◌, refl, subst, false, ◌==◌, [], ◌∷◌, none, some, leb, if◌then◌else◌, arith,
}
use lib_meridian.Node.{NodeIdent, node_eq}
use lib_meridian.Timeval.{Timeval, timed_out, normalize_time}
use lib_meridian.LatencyCache.{
  LatencyCache, new_latency_cache, insert_measurement, get_latency, deadline, clear, erase_entry,
  evict, store_entry,
}
use lib_meridian.OrdMap.{find, insert}
use lib_meridian.Timeouts.{push_timeout}
use lib_meridian.LatencyCache.Validity.{IsValid, new_latency_cache-IsValid}
use lib_meridian.LatencyCache.Insertion.{
  Stored, insert_measurement_lem, get_latency-insert_measurement,
}
use lib_meridian.LatencyCache.Clearing.{clear_lem}

-- The macro, on times with microseconds below a second.
abbrev sum : Timeval → Timeval → Timeval
sum a b =
    if leb 1000000 (a.tv_usec + b.tv_usec)
    then record { tv_sec = suc (a.tv_sec + b.tv_sec); tv_usec = a.tv_usec + b.tv_usec - 1000000 }
    else record { tv_sec = a.tv_sec + b.tv_sec; tv_usec = a.tv_usec + b.tv_usec }

abbrev noon : Timeval
noon = record { tv_sec = 43200; tv_usec = 700000 }

abbrev later : Timeval
later = record { tv_sec = 43201; tv_usec = 0 }

abbrev near : NodeIdent
near = record { addr = 3232235777; port = 3964 }

abbrev far : NodeIdent
far = record { addr = 167772161; port = 3964 }

-- Room for one entry, for two and a half seconds.
abbrev one_entry : LatencyCache
one_entry = record {
  timeout_map = (record { tv_sec = 43203; tv_usec = 200000 }, near ∷ []) ∷ [];
  latency_map = (near, (record { tv_sec = 43203; tv_usec = 200000 }, 1700)) ∷ [];
  max_size = 1;
  period_us = 2500000;
}

insert-one_entry :
    insert_measurement sum noon near 1700 (new_latency_cache 1 2500000) ≡ some one_entry
unfolding insert_measurement new_latency_cache erase_entry evict deadline store_entry push_timeout
    find insert normalize_time
insert-one_entry = refl

one_entry-IsValid : IsValid one_entry
unfolding new_latency_cache
one_entry-IsValid =
    let (d, e, s) =
      insert_measurement_lem sum noon near 1700 (new_latency_cache 1 2500000)
        (new_latency_cache-IsValid 1 2500000) (omega arith) in
    subst IsValid (cc (e, insert-one_entry)) s.valid

insert_measurement_lem_example :
    (d : LatencyCache) × (insert_measurement sum later far 900 one_entry ≡ some d)
    × Stored (deadline sum later one_entry) far 900 one_entry d
insert_measurement_lem_example =
    insert_measurement_lem sum later far 900 one_entry one_entry-IsValid (omega arith)

get_latency-insert_measurement_example :
    (d : LatencyCache) × (insert_measurement sum noon near 1700 (new_latency_cache 1 2500000)
      ≡ some d)
    × ((t : Timeval)
        → get_latency t near d ≡ (
            if timed_out (deadline sum noon (new_latency_cache 1 2500000)) (normalize_time t)
            then none
            else some 1700))
    × ((t : Timeval) (q : NodeIdent)
        → (q == near) ≡ false
        → get_latency t q d ≡ get_latency t q (new_latency_cache 1 2500000))
unfolding new_latency_cache
get_latency-insert_measurement_example =
    get_latency-insert_measurement sum noon near 1700 (new_latency_cache 1 2500000)
      (new_latency_cache-IsValid 1 2500000) (omega arith)

clear_lem_example :
    (d : LatencyCache) × (clear one_entry ≡ some d) × (d.timeout_map ≡ []) × (d.latency_map ≡ [])
clear_lem_example = clear_lem one_entry one_entry-IsValid
