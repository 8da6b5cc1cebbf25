-- ===== src/Examples/Timeouts.antt =====
-- Times.
use lib_meridian.Prelude.{◌≡◌, ◌↔◌, ◌≤◌, ◌<◌, true, arith}
use lib_meridian.Timeval.{
  Timeval, normalize_time, microseconds, normalize_time_lem, timed_out_lem, timeval_lt, timed_out,
}

abbrev sum : Timeval
sum = record { tv_sec = 12; tv_usec = 1700000 }

abbrev before : Timeval
before = record { tv_sec = 12; tv_usec = 999999 }

abbrev after : Timeval
after = record { tv_sec = 13; tv_usec = 5 }

normalize_time_lem_example :
    (microseconds (normalize_time sum) ≡ 13700000)
    × ((normalize_time sum).tv_usec ≤ 1000000)
    × (((normalize_time sum).tv_usec ≡ 1000000) ↔ (sum.tv_usec ≡ 1000000))
normalize_time_lem_example = normalize_time_lem sum (omega arith)

timed_out_lem_example :
    ((timeval_lt before after ≡ true) ↔ (microseconds before < microseconds after))
    × ((timed_out before after ≡ true) ↔ (microseconds before ≤ microseconds after))
timed_out_lem_example = timed_out_lem before after (omega arith) (omega arith)
