-- ===== src/Timeval.antt =====
-- Times as QueryTable.h, QueryTable.cpp and LatencyCache.cpp use them: normalizeTime, the order
-- timevalLT, and the test of a time-out. A timeval holds no negative number here: times come from
-- gettimeofday and from sums with periods.
use lib_meridian.OrdMap.{Key}
use lib_meridian.Prelude.{
  false, ℕ, ◌+◌, ◌-◌, ◌*◌, ◌/◌, ◌%◌, ◌≤◌, ◌<◌, ◌≡◌, ◌↔◌, Bool, true, ◌&&◌, ◌||◌, ◌==◌, nat_eq, ltb,
  leb, if◌then◌else◌, arith, refl, Bool-cases, inl, inr,
}

pub record Timeval : Type 0 where
  pub tv_sec : ℕ
  pub tv_usec : ℕ

-- timevalLT.
unfoldable pub timeval_lt : Timeval → Timeval → Bool
timeval_lt s1 s2 = ltb s1.tv_sec s2.tv_sec || (s1.tv_sec == s2.tv_sec && ltb s1.tv_usec s2.tv_usec)

-- The test of an entry's time against the current one.
unfoldable pub timed_out : Timeval → Timeval → Bool
timed_out s1 cur_time =
    ltb s1.tv_sec cur_time.tv_sec
    || (s1.tv_sec == cur_time.tv_sec && leb s1.tv_usec cur_time.tv_usec)

-- normalizeTime: the number of seconds and its product with MICRO_IN_SECOND are u_int.
unfoldable pub normalize_time : Timeval → Timeval
normalize_time tv =
    let extra_seconds = tv.tv_usec / 1000000 % 4294967296 in
    if ltb 1000000 tv.tv_usec
    then record {
      tv_sec = tv.tv_sec + extra_seconds;
      tv_usec = tv.tv_usec - extra_seconds * 1000000 % 4294967296;
    }
    else tv

-- The time in microseconds.
abbrev pub microseconds : Timeval → ℕ
microseconds tv = tv.tv_sec * 1000000 + tv.tv_usec

-- normalizeTime keeps the time, for microseconds of 32 bits, and leaves at most 1000000 of them:
-- 1000000 exactly where there were so many, and fewer otherwise.
pub normalize_time_lem :
    (tv : Timeval)
    → tv.tv_usec < 4294967296
    → (microseconds (normalize_time tv) ≡ microseconds tv)
      × ((normalize_time tv).tv_usec ≤ 1000000)
      × (((normalize_time tv).tv_usec ≡ 1000000) ↔ (tv.tv_usec ≡ 1000000))
unfolding normalize_time
normalize_time_lem tv k = elim (Bool-cases (ltb 1000000 tv.tv_usec)) [
  | inl h ↦ rw h (
    omega (arith, k),
    omega (arith, k),
    ((λ x. ground (arith, k, h, x)), (λ y. ground (arith, h, y))),
  )
  | inr h ↦ rw h (refl, ground (arith, h), ((λ x. x), (λ y. y)))
]

-- Two times whose microseconds are below a second are ordered by timevalLT as the microseconds that
-- they stand for, and the first is timed out at the second exactly when it is not later.
pub timed_out_lem :
    (s1 s2 : Timeval)
    → s1.tv_usec < 1000000
    → s2.tv_usec < 1000000
    → ((timeval_lt s1 s2 ≡ true) ↔ (microseconds s1 < microseconds s2))
      × ((timed_out s1 s2 ≡ true) ↔ (microseconds s1 ≤ microseconds s2))
unfolding timeval_lt timed_out
timed_out_lem s1 s2 a b = (ground (arith, a, b), ground (arith, a, b))

pub same_timeval : Timeval → Timeval → Bool
same_timeval a b = a.tv_sec == b.tv_sec && a.tv_usec == b.tv_usec

pub same_timeval_iff : (a b : Timeval) → (same_timeval a b ≡ true) ↔ (a ≡ b)
unfolding same_timeval
same_timeval_iff a b = ground arith

pub timeval_lt_trans :
    (a b c : Timeval) → timeval_lt a b ≡ true → timeval_lt b c ≡ true → timeval_lt a c ≡ true
unfolding timeval_lt
timeval_lt_trans a b c h k = ground (arith, h, k)

pub timeval_lt_irrefl : (a : Timeval) → timeval_lt a a ≡ false
unfolding timeval_lt
timeval_lt_irrefl a = ground arith

pub timeval_lt_total :
    (a b : Timeval) → timeval_lt a b ≡ false → same_timeval a b ≡ false → timeval_lt b a ≡ true
unfolding timeval_lt same_timeval
timeval_lt_total a b h k = ground (arith, h, k)

-- The order of the maps whose keys are times.
instance abbrev pub timeval_key : Key Timeval
timeval_key = record {
  eq = record { test = same_timeval; test_iff = same_timeval_iff };
  lt = timeval_lt;
  lt_trans = timeval_lt_trans;
  lt_irrefl = timeval_lt_irrefl;
  lt_total = timeval_lt_total;
}
