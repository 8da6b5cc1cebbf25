-- ===== src/LatencyCache/Eviction.antt =====
-- The first entry of the map of times, which LatencyCache::insertMeasurement drops for a new one.
use lib_meridian.Prelude.{
  ℕ, suc, ◌≤◌, ◌≡◌, refl, ap, true, nat_eq, [], ◌∷◌, Option, none, some, length, leb, arith,
}
use lib_meridian.Node.{NodeIdent, node_eq, node_key}
use lib_meridian.OrdMap.{OrdMap, find}
use lib_meridian.OrdMap.Laws.{same_refl}
use lib_meridian.Timeval.{Timeval, timeval_key}
use lib_meridian.Timeouts.{TimeoutMap}
use lib_meridian.Timeouts.First.{Oldest, first_vector, no_empty_vector, nothing_due}
use lib_meridian.Timeouts.Agreement.{Agree}
use lib_meridian.LatencyCache.{LatencyCache, evict, oldest}
use lib_meridian.LatencyCache.Validity.{IsValid, Dropped, erase_entry_lem, due, time_of}

pub oldest_lem :
    (due : NodeIdent → Option Timeval) (m : TimeoutMap NodeIdent) (q : NodeIdent) (t : Timeval)
    → Agree due m
    → due q ≡ some t
    → (n : NodeIdent) × (oldest m ≡ some n) × Oldest due n
unfolding oldest
oldest_lem due [] q t a h = absurd (cc (h, nothing_due due q a))
oldest_lem due ((tv, []) ∷ rest) q t a h = absurd (no_empty_vector due tv rest a)
oldest_lem due ((tv, n ∷ ns) ∷ rest) q t a h = (n, refl, (first_vector due tv n ns rest a).0)

some_entry :
    (m : OrdMap NodeIdent (Timeval × ℕ))
    → 1 ≤ length m
    → (q : NodeIdent) × (e : Timeval × ℕ) × (find q m ≡ some e)
unfolding find
some_entry [] h = absurd (omega (arith, h))
some_entry ((n, e) ∷ m) h = (n, e, rw (same_refl n) refl)

-- In a full cache the oldest entry goes.
pub evict_full :
    (c : LatencyCache)
    → IsValid c
    → 1 ≤ c.max_size
    → leb c.max_size (length c.latency_map) ≡ true
    → (n : NodeIdent) × (d : LatencyCache) × (evict c ≡ some d)
      × Oldest (due c) n
      × Dropped n c d
      × (suc (length d.latency_map) ≤ d.max_size)
unfolding evict
evict_full c v p h =
    let (q, (t, l), f) = some_entry c.latency_map (ground (arith, h, p)) in
    let (n, o, old) = oldest_lem (due c) c.timeout_map q t v.agrees (ap time_of f) in
    let (d, e, dropped) = erase_entry_lem n c v in
    (n, d, rw (evict, h, o) e, old, dropped, room (find n c.latency_map) refl old.is_due dropped)
  where
    room :
        {n : NodeIdent} {t : Timeval} {d : LatencyCache} (o : Option (Timeval × ℕ))
        → find n c.latency_map ≡ o
        → due c n ≡ some t
        → Dropped n c d
        → suc (length d.latency_map) ≤ d.max_size
    room none g due_n dropped = absurd (cc (g, due_n, ap time_of g))
    room (some e) g due_n dropped = omega (arith, dropped.shorter e g, dropped.max_size, v.fits)
