-- ===== src/QueryTable/Expiry.antt =====
-- deleteQueries of QueryTable::handleTimeout holds every query that is due, once.
use lib_meridian.Prelude.{
  ℕ, ◌+◌, ◌≡◌, refl, ap, sym, ◌∙◌, false, nat_eq, List, [], ◌∷◌, Option, none, some, if◌then◌else◌,
  Bool-cases, if_true, if_false, inl, inr, arith,
}
use lib_meridian.OrdMap.{find, Sorted, same, precedes, Above}
use lib_meridian.OrdMap.Laws.{same_refl}
use lib_meridian.Timeval.{Timeval, timeval_key, timed_out}
use lib_meridian.Timeouts.{TimeoutMap}
use lib_meridian.Timeouts.Agreement.{or_nil, once_at}
use lib_meridian.Vector.{count}
use lib_meridian.Vector.Counts.{count-append}
use lib_meridian.QueryTable.Order.{id_key}
use lib_meridian.QueryTable.{timed_out_queries}

-- 1 for a query that is timed out.
abbrev pub over : Timeval → Option Timeval → ℕ
over cur_time none = 0
over cur_time (some tv) = if timed_out tv cur_time then 1 else 0

absent_below : (tv : Timeval) (m : TimeoutMap ℕ) → Above tv m → find tv m ≡ none
unfolding find
absent_below tv [] a = refl
absent_below tv ((j, w) ∷ m) a = elim (Bool-cases (same tv j)) [
  | inl g ↦ absurd (
      cc (
        timeval_key.lt_irrefl tv,
        ap (λ x. precedes tv x) ((timeval_key.eq.test_iff tv j).0 g),
        a.0,
      ))
  | inr g ↦ if_false _ _ g ∙ absent_below tv m a.1
]

-- The vectors hold a query that is due at `o`, and hold it once.
abbrev pub Listed : ℕ → Option Timeval → TimeoutMap ℕ → Type 0
Listed k o m = (tv : Timeval) → count k (or_nil (find tv m)) ≡ once_at tv o

abbrev pub tail_due : Timeval → Option Timeval → Option Timeval
tail_due tv none = none
tail_due tv (some d) = if same d tv then none else some d

once_at-tail_same : (tv : Timeval) (o : Option Timeval) → once_at tv (tail_due tv o) ≡ 0
once_at-tail_same tv none = refl
once_at-tail_same tv (some d) = elim (Bool-cases (same d tv)) [
  | inl g ↦ rw g refl
  | inr g ↦ rw (g, g) refl
]

once_at-tail_other :
    (t tv : Timeval) (o : Option Timeval)
    → same t tv ≡ false
    → once_at t (tail_due tv o) ≡ once_at t o
once_at-tail_other t tv none h = refl
once_at-tail_other t tv (some d) h = elim (Bool-cases (same d tv)) [
  | inr g ↦ rw g refl
  | inl g ↦
      rw g (
        sym (if_false 1 0 (ap (λ x. same x t) ((timeval_key.eq.test_iff d tv).0 g) ∙ apart t tv h)))
]
  where
    apart : (t tv : Timeval) → same t tv ≡ false → same tv t ≡ false
    apart t tv h = elim (Bool-cases (same tv t)) [
      | inr g ↦ g
      | inl g ↦
          absurd
            (cc (h, ap (λ x. same x tv) (sym ((timeval_key.eq.test_iff tv t).0 g)), same_refl tv))
    ]

over-tail :
    (cur_time tv : Timeval) (o : Option Timeval)
    → over cur_time o
      ≡ (if timed_out tv cur_time then once_at tv o else 0) + over cur_time (tail_due tv o)
over-tail cur_time tv none = ground arith
over-tail cur_time tv (some d) = elim (Bool-cases (same d tv)) [
  | inr g ↦ ground (arith, g, ap (over cur_time) (if_false none (some d) g), if_false {A = ℕ} 1 0 g)
  | inl g ↦ ground (
    arith,
    g,
    ap (over cur_time) (if_true none (some d) g),
    if_true {A = ℕ} 1 0 g,
    ap (λ x. timed_out x cur_time) ((timeval_key.eq.test_iff d tv).0 g),
  )
]

pub Listed-tail :
    (k : ℕ) (o : Option Timeval) (tv : Timeval) (vect : List ℕ) (m : TimeoutMap ℕ)
    → Above tv m
    → Listed k o ((tv, vect) ∷ m)
    → Listed k (tail_due tv o) m
unfolding find count
Listed-tail k o tv vect m a l t = elim (Bool-cases (same t tv)) [
  | inl g ↦
      let e = (timeval_key.eq.test_iff t tv).0 g in
      ap (λ x. count k (or_nil x)) (ap (λ x. find x m) e ∙ absent_below tv m a)
      ∙ sym (ap (λ x. once_at x (tail_due tv o)) e ∙ once_at-tail_same tv o)
  | inr g ↦
      ap (λ x. count k (or_nil x)) (sym (if_false (some vect) (find t m) g))
      ∙ l t
      ∙ sym (once_at-tail_other t tv o g)
]

pub Listed-head :
    (k : ℕ) (o : Option Timeval) (tv : Timeval) (vect : List ℕ) (m : TimeoutMap ℕ)
    → Listed k o ((tv, vect) ∷ m)
    → count k vect ≡ once_at tv o
unfolding find
Listed-head k o tv vect m l =
    ap (λ x. count k (or_nil x)) (sym (if_true (some vect) (find tv m) (same_refl tv))) ∙ l tv

Listed-nil : (k : ℕ) (o : Option Timeval) (cur_time : Timeval) → Listed k o [] → 0 ≡ over cur_time o
unfolding find count
Listed-nil k none cur_time l = refl
Listed-nil k (some d) cur_time l = absurd (omega (arith, l d ∙ if_true 1 0 (same_refl d)))

pub count-timed_out_queries :
    (k : ℕ) (o : Option Timeval) (cur_time : Timeval) (m : TimeoutMap ℕ)
    → Sorted m
    → Listed k o m
    → count k (timed_out_queries cur_time m) ≡ over cur_time o
unfolding timed_out_queries count
count-timed_out_queries k o cur_time [] s l = Listed-nil k o cur_time l
count-timed_out_queries k o cur_time ((tv, vect) ∷ m) s l =
    let rest =
      count-timed_out_queries k (tail_due tv o) cur_time m s.1 (Listed-tail k o tv vect m s.0 l) in
    elim (Bool-cases (timed_out tv cur_time)) [
      | inl g ↦
          ap (count k) (if_true _ _ g)
          ∙ omega (
            arith,
            count-append k vect (timed_out_queries cur_time m),
            Listed-head k o tv vect m l,
            rest,
            over-tail cur_time tv o,
            if_true (once_at tv o) 0 g,
          )
      | inr g ↦
          ap (count k) (if_false _ _ g)
          ∙ omega (arith, rest, over-tail cur_time tv o, if_false (once_at tv o) 0 g)
    ]
