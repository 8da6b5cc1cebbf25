-- ===== src/Queries/QueryScheduler.antt =====
-- class QueryScheduler of Query.h and Query.cpp.
use lib_meridian.Prelude.{ℕ, ◌*◌, ◌%◌, suc, zero, Bool, true, false, nat_eq, [], ◌∷◌}
use lib_meridian.Node.{node_eq}
use lib_meridian.Timeval.{Timeval}
use lib_meridian.Queries.{run_once, update_timeout, Outcome, done, compute_timeout}

pub record QueryScheduler : Type 0 where
  pub qid : ℕ
  pub timeout_tv : Timeval
  pub init_interval_ms : ℕ
  pub num_init_interval : ℕ
  pub ss_interval_ms : ℕ
  pub finished : Bool

-- The product of an interval with MICRO_IN_MILLI, over u_int.
abbrev pub in_us : ℕ → ℕ
in_us ms = ms * 1000 % 4294967296

unfoldable pub compute_sched_timeout :
    (Timeval → Timeval → Timeval) → Timeval → QueryScheduler → QueryScheduler
compute_sched_timeout timeradd now q = elim q.num_init_interval [
  | zero ↦ record q { timeout_tv = compute_timeout timeradd now (in_us q.ss_interval_ms) }
  | suc n ↦ record q {
    timeout_tv = compute_timeout timeradd now (in_us q.init_interval_ms);
    num_init_interval = n;
  }
]

unfoldable pub new_query :
    (Timeval → Timeval → Timeval) → Timeval → Timeval → ℕ → ℕ → ℕ → ℕ → QueryScheduler
new_query timeradd now unset id in_init_interval_ms in_num_init_interval in_ss_interval_ms =
    compute_sched_timeout timeradd now (record {
      qid = id;
      timeout_tv = unset;
      init_interval_ms = in_init_interval_ms;
      num_init_interval = in_num_init_interval;
      ss_interval_ms = in_ss_interval_ms;
      finished = false;
    })

unfoldable pub handle_timeout :
    (Timeval → Timeval → Timeval) → Timeval → QueryScheduler → Outcome QueryScheduler
handle_timeout timeradd now q = done (compute_sched_timeout timeradd now q) (run_once ∷ [])

unfoldable pub remove_scheduler : QueryScheduler → Outcome QueryScheduler
remove_scheduler q = done (record q { finished = true }) (update_timeout ∷ [])
