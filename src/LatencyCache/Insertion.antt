-- ===== src/LatencyCache/Insertion.antt =====
-- LatencyCache::insertMeasurement makes room, and the cache answers with what it has stored.
use lib_meridian.Prelude.{
  ℕ, suc, ◌≤◌, ◌≡◌, refl, ap, sym, subst, ◌∙◌, false, ◌==◌, nat_eq, Option, none, some, length, leb,
  if◌then◌else◌, Bool-cases, inl, inr, arith,
}
use lib_meridian.Node.{NodeIdent, node_eq, node_key, same_node_iff}
use lib_meridian.OrdMap.{find}
use lib_meridian.OrdMap.Laws.{find-insert, insert-Sorted, length-insert_new, same_refl}
use lib_meridian.Timeval.{Timeval, timeval_key, timed_out, normalize_time}
use lib_meridian.Timeouts.{push_timeout}
use lib_meridian.Timeouts.Agreement.{Agree-same, push-Agree}
use lib_meridian.LatencyCache.{
  LatencyCache, erase_entry, evict, store_entry, deadline, insert_measurement, get_latency,
  ◌then_do◌,
}
use lib_meridian.LatencyCache.Validity.{IsValid, Dropped, erase_entry_lem, due, time_of}
use lib_meridian.LatencyCache.Eviction.{evict_full}
use lib_meridian.Timeouts.First.{Oldest}

find-store_entry :
    (tv : Timeval) (n q : NodeIdent) (l : ℕ) (c : LatencyCache)
    → find q (store_entry tv n l c).latency_map
      ≡ (if q == n then some (tv, l) else find q c.latency_map)
unfolding store_entry
find-store_entry tv n q l c = find-insert q n (tv, l) c.latency_map

due-store_entry :
    (tv : Timeval) (n q : NodeIdent) (l : ℕ) (c : LatencyCache)
    → (if n == q then some tv else due c q) ≡ due (store_entry tv n l c) q
due-store_entry tv n q l c =
    ground (arith, find-store_entry tv n q l c, same_node_iff n q, same_node_iff q n)

store_entry-IsValid :
    (tv : Timeval) (n : NodeIdent) (l : ℕ) (c : LatencyCache)
    → IsValid c
    → find n c.latency_map ≡ none
    → suc (length c.latency_map) ≤ c.max_size
    → IsValid (store_entry tv n l c)
unfolding store_entry
store_entry-IsValid tv n l c v h r = record {
  agrees =
      Agree-same (λ j. if n == j then some tv else due c j) (due (store_entry tv n l c))
        (push_timeout tv n c.timeout_map) (λ j. due-store_entry tv n j l c)
        (push-Agree (due c) tv n c.timeout_map v.agrees (ap time_of h));
  fits = omega (arith, length-insert_new n (tv, l) c.latency_map h, r);
  ordered = insert-Sorted n (tv, l) c.latency_map v.ordered;
}

-- What becomes of the entry of another node: the victim, if there is one, is forgotten.
pub data Kept (c d : LatencyCache) (n : NodeIdent) (victim : Option NodeIdent) (q : NodeIdent)
    : Type 0 where
  same_entry : find q d.latency_map ≡ find q c.latency_map → Kept c d n victim q
  evicted :
      victim ≡ some q
      → find q d.latency_map ≡ none
      → find n c.latency_map ≡ none
      → c.max_size ≤ length c.latency_map
      → Oldest (due c) q
      → Kept c d n victim q

-- What a measurement leaves: it is found with its time, other entries are kept, and so are the limits.
pub record Stored (tv : Timeval) (n : NodeIdent) (l : ℕ) (c d : LatencyCache) : Type 0 where
  pub found : find n d.latency_map ≡ some (tv, l)
  pub victim : Option NodeIdent
  pub others : (q : NodeIdent) → (q == n) ≡ false → Kept c d n victim q
  pub valid : IsValid d
  pub max_size : d.max_size ≡ c.max_size
  pub period_us : d.period_us ≡ c.period_us

-- The entries with room for the node.
record Ready (n : NodeIdent) (c d : LatencyCache) : Type 0 where
  absent : find n d.latency_map ≡ none
  room : suc (length d.latency_map) ≤ d.max_size
  victim : Option NodeIdent
  others : (q : NodeIdent) → (q == n) ≡ false → Kept c d n victim q
  valid : IsValid d
  max_size : d.max_size ≡ c.max_size
  period_us : d.period_us ≡ c.period_us

Kept-store :
    (tv : Timeval) (n q : NodeIdent) (victim : Option NodeIdent) (l : ℕ) (c d : LatencyCache)
    → (q == n) ≡ false
    → Kept c d n victim q
    → Kept c (store_entry tv n l d) n victim q
Kept-store tv n q victim l c d h (same_entry e) = same_entry (find-store_entry tv n q l d ∙ rw h e)
Kept-store tv n q victim l c d h (evicted is gone new full old) =
    evicted is (find-store_entry tv n q l d ∙ rw h gone) new full old

Ready-Stored :
    (tv : Timeval) (n : NodeIdent) (l : ℕ) (c d : LatencyCache)
    → Ready n c d
    → Stored tv n l c (store_entry tv n l d)
unfolding store_entry
Ready-Stored tv n l c d r = record {
  found = find-store_entry tv n n l d ∙ rw (same_refl n) refl;
  victim = r.victim;
  others = λ q h. Kept-store tv n q r.victim l c d h (r.others q h);
  valid = store_entry-IsValid tv n l d r.valid r.absent r.room;
  max_size = r.max_size;
  period_us = r.period_us;
}

evict_room : (c : LatencyCache) → leb c.max_size (length c.latency_map) ≡ false → evict c ≡ some c
unfolding evict
evict_room c h = rw h refl

erase_entry_absent :
    (n : NodeIdent) (c : LatencyCache) → find n c.latency_map ≡ none → erase_entry n c ≡ some c
unfolding erase_entry
erase_entry_absent n c h = rw (erase_entry, h) refl

unchanged :
    (n : NodeIdent) (c d : LatencyCache)
    → IsValid c
    → find n c.latency_map ≡ none
    → suc (length c.latency_map) ≤ c.max_size
    → Ready n c c
unchanged n c d v f r = record {
  absent = f;
  room = r;
  victim = none;
  others = λ q h. same_entry refl;
  valid = v;
  max_size = refl;
  period_us = refl;
}

-- Another node's entry after the oldest one is gone.
Kept-evict :
    (n p q : NodeIdent) (c d : LatencyCache)
    → find n c.latency_map ≡ none
    → c.max_size ≤ length c.latency_map
    → Oldest (due c) p
    → Dropped p c d
    → Kept c d n (some p) q
Kept-evict n p q c d f full old dropped = elim (Bool-cases (q == p)) [
  | inl g ↦
      evicted (ap some (sym ((same_node_iff q p).0 g))) (dropped.entries q ∙ rw g refl) f full
        (subst (Oldest (due c)) (sym ((same_node_iff q p).0 g)) old)
  | inr g ↦ same_entry (dropped.entries q ∙ rw g refl)
]

still_absent :
    (n p : NodeIdent) (c d : LatencyCache)
    → find n c.latency_map ≡ none
    → Dropped p c d
    → find n d.latency_map ≡ none
still_absent n p c d f dropped =
    dropped.entries n ∙ elim (Bool-cases (n == p)) [ inl g ↦ rw g refl | inr g ↦ rw g f ]

evict_for_new :
    (n : NodeIdent) (c : LatencyCache)
    → IsValid c
    → 1 ≤ c.max_size
    → find n c.latency_map ≡ none
    → (d : LatencyCache) × (evict c ≡ some d) × Ready n c d
evict_for_new n c v p f = elim (Bool-cases (leb c.max_size (length c.latency_map))) [
  | inr h ↦ (c, evict_room c h, unchanged n c c v f (ground (arith, h)))
  | inl h ↦
      let (o, d, e, old, dropped, room) = evict_full c v p h in
      (
        d,
        e,
        record {
          absent = still_absent n o c d f dropped;
          room = room;
          victim = some o;
          others = λ q g. Kept-evict n o q c d f (ground (arith, h)) old dropped;
          valid = dropped.valid;
          max_size = dropped.max_size;
          period_us = dropped.period_us;
        },
      )
]

ready :
    (n : NodeIdent) (c : LatencyCache)
    → IsValid c
    → 1 ≤ c.max_size
    → (d : LatencyCache) × ((erase_entry n c then_do evict) ≡ some d) × Ready n c d
ready n c v p = go (find n c.latency_map) refl
  where
    go :
        (o : Option (Timeval × ℕ))
        → find n c.latency_map ≡ o
        → (d : LatencyCache) × ((erase_entry n c then_do evict) ≡ some d) × Ready n c d
    go none f = let (d, e, r) = evict_for_new n c v p f in (d, rw (erase_entry_absent n c f) e, r)
    go (some e) f =
        let (b, erased, dropped) = erase_entry_lem n c v in
        let room : suc (length b.latency_map) ≤ b.max_size =
          omega (arith, dropped.shorter e f, dropped.max_size, v.fits) in
        (
          b,
          rw erased (evict_room b (ground (arith, room))),
          record {
            absent = dropped.entries n ∙ rw (same_refl n) refl;
            room = room;
            victim = none;
            others = λ q h. same_entry (dropped.entries q ∙ rw h refl);
            valid = dropped.valid;
            max_size = dropped.max_size;
            period_us = dropped.period_us;
          },
        )

get_latency-found :
    (tv now : Timeval) (n : NodeIdent) (l : ℕ) (c : LatencyCache)
    → find n c.latency_map ≡ some (tv, l)
    → get_latency now n c ≡ (if timed_out tv (normalize_time now) then none else some l)
unfolding get_latency
get_latency-found tv now n l c h = rw (get_latency, h) refl

get_latency-same :
    (now : Timeval) (q : NodeIdent) (c d : LatencyCache)
    → find q d.latency_map ≡ find q c.latency_map
    → get_latency now q d ≡ get_latency now q c
unfolding get_latency
get_latency-same now q c d h = rw (get_latency, h) refl

module _ (timeradd : Timeval → Timeval → Timeval) where
  -- In a valid cache that may hold an entry, a measurement is stored with its time, and the cache stays
  -- valid, with its limits. The entry of every other node is kept, except that a new node makes a full cache
  -- forget a single entry, one that is due no later than any other.
  pub insert_measurement_lem :
      (now : Timeval) (n : NodeIdent) (l : ℕ) (c : LatencyCache)
      → IsValid c
      → 1 ≤ c.max_size
      → (d : LatencyCache) × (insert_measurement timeradd now n l c ≡ some d)
        × Stored (deadline timeradd now c) n l c d
  unfolding insert_measurement deadline
  insert_measurement_lem now n l c v p =
      let (d, e, r) = ready n c v p in
      let tv = deadline timeradd now c in
      (store_entry tv n l d, rw (e, r.period_us) (ground (arith, p)), Ready-Stored tv n l c d r)

  -- In a valid cache that may hold an entry and has room for another, a measurement is answered from
  -- then on until its time is over, also for a node that had an older one, and the answers about the
  -- other nodes stay as they were.
  pub get_latency-insert_measurement :
      (now : Timeval) (n : NodeIdent) (l : ℕ) (c : LatencyCache)
      → IsValid c
      → suc (length c.latency_map) ≤ c.max_size
      → (d : LatencyCache) × (insert_measurement timeradd now n l c ≡ some d)
        × ((later : Timeval)
            → get_latency later n d ≡ (
                if timed_out (deadline timeradd now c) (normalize_time later)
                then none
                else some l))
        × ((later : Timeval) (q : NodeIdent)
            → (q == n) ≡ false
            → get_latency later q d ≡ get_latency later q c)
  get_latency-insert_measurement now n l c v r =
      let (d, e, s) = insert_measurement_lem now n l c v (omega (arith, r)) in
      (
        d,
        e,
        (λ later. get_latency-found (deadline timeradd now c) later n l d s.found),
        λ later q g. get_latency-same later q c d (kept q (s.others q g)),
      )
    where
      kept :
          {d : LatencyCache} {victim : Option NodeIdent} (q : NodeIdent)
          → Kept c d n victim q
          → find q d.latency_map ≡ find q c.latency_map
      kept q (same_entry e) = e
      kept q (evicted is gone new full old) = absurd (omega (arith, full, r))
