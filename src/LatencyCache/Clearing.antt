-- ===== src/LatencyCache/Clearing.antt =====
-- The destructor of LatencyCache leaves nothing behind.
use lib_meridian.Prelude.{
  ℕ, ◌≡◌, refl, ap, ◌∙◌, false, [], ◌∷◌, Option, none, some, Bool-cases, inl, inr, arith,
}
use lib_meridian.Node.{NodeIdent, node_eq, node_key, same_node_iff}
use lib_meridian.OrdMap.{OrdMap, find}
use lib_meridian.OrdMap.Laws.{same_refl}
use lib_meridian.Timeval.{Timeval, timeval_key}
use lib_meridian.Timeouts.{TimeoutMap}
use lib_meridian.Timeouts.Agreement.{Agree}
use lib_meridian.Vector.{contains, count}
use lib_meridian.LatencyCache.{LatencyCache, clear, all_entries}
use lib_meridian.LatencyCache.Validity.{IsValid, erase_entries_lem, due, time_of}

contains-all_entries :
    (q : NodeIdent) (m : OrdMap NodeIdent (Timeval × ℕ))
    → contains q (all_entries m) ≡ false
    → find q m ≡ none
unfolding contains all_entries find
contains-all_entries q [] h = refl
contains-all_entries q ((n, e) ∷ m) h =
    ground (arith, h, same_node_iff q n, same_node_iff n q, contains-all_entries q m)

find-nil : (m : OrdMap NodeIdent (Timeval × ℕ)) → ((q : NodeIdent) → find q m ≡ none) → m ≡ []
unfolding find
find-nil [] h = refl
find-nil ((n, e) ∷ m) h = absurd (ground (arith, h n, same_refl n))

Agree-empty :
    (due : NodeIdent → Option Timeval) (m : TimeoutMap NodeIdent)
    → Agree due m
    → ((q : NodeIdent) → due q ≡ none)
    → m ≡ []
unfolding find count
Agree-empty due [] a h = refl
Agree-empty due ((tv, []) ∷ m) a h = absurd (omega (arith, a.filled tv [] (rw (same_refl tv) refl)))
Agree-empty due ((tv, n ∷ ns) ∷ m) a h =
    absurd (ground (arith, a.listed tv n, h n, same_refl tv, same_refl n))

-- The destructor of a valid cache erases every entry, and finds both maps empty, as it asserts.
pub clear_lem :
    (c : LatencyCache)
    → IsValid c
    → (d : LatencyCache) × (clear c ≡ some d) × (d.timeout_map ≡ []) × (d.latency_map ≡ [])
unfolding clear
clear_lem c v =
    let (d, e, w, gone) = erase_entries_lem (all_entries c.latency_map) c v in
    let nothing : (q : NodeIdent) → find q d.latency_map ≡ none = λ q.
      gone q ∙ elim (Bool-cases (contains q (all_entries c.latency_map))) [
        | inl g ↦ rw g refl
        | inr g ↦ rw g (contains-all_entries q c.latency_map g)
      ] in
    (
      d,
      e,
      Agree-empty (due d) d.timeout_map w.agrees (λ q. ap time_of (nothing q)),
      find-nil d.latency_map nothing,
    )
