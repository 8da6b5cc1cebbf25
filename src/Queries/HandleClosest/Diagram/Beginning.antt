-- ===== src/Queries/HandleClosest/Diagram/Beginning.antt =====
-- A new search, and init, which looks the targets up in the cache.
use lib_meridian.Prelude.{ℕ, ◌≤◌, ◌≡◌, refl, nat_eq, List, some}
use lib_meridian.Node.{NodeIdent, node_key}
use lib_meridian.OrdMap.{OrdMap, find, Sorted}
use lib_meridian.OrdMap.Subsets.{Within}
use lib_meridian.Queries.HandleClosest.{HandleClosest, uint_max}
use lib_meridian.Queries.HandleClosest.Diagram.{IsValid}
use lib_meridian.Node.{NodeIdentRendv}
use lib_meridian.Timeval.{Timeval}
use lib_meridian.RingSet.Queries.{NodeSet}
use lib_meridian.Queries.{Kind}
use lib_meridian.Queries.HandleClosest.{new_query}

pub new_query-IsValid :
    (timeradd : Timeval → Timeval → Timeval) (now : Timeval) (unset : ℕ) (kind : Kind)
    (id numer denom : ℕ) (src : NodeIdentRendv) (remote : List NodeIdent)
    → unset ≤ uint_max
    → IsValid (new_query timeradd now unset kind id numer denom src remote)
unfolding new_query find
new_query-IsValid timeradd now unset kind id numer denom src remote h = record {
  average = h;
  latencies_ordered = tt;
  latencies_asked = λ n g. refl;
  latencies_small = λ n l g. absurd (cc (g));
  results_ordered = tt;
  results_asked = λ n g. refl;
  results_late = λ x. refl;
}

-- Latencies of targets, of 32 bits.
record Looked (targets : NodeSet) (m : OrdMap NodeIdent ℕ) : Type 0 where
  ordered : Sorted m
  asked : Within m targets
  small : (n : NodeIdent) (l : ℕ) → find n m ≡ some l → l ≤ uint_max
