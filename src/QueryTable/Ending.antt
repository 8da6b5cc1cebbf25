-- ===== src/QueryTable/Ending.antt =====
-- The destructor of QueryTable deletes every query once.
use lib_meridian.Prelude.{
  ℕ, ◌+◌, ◌≤◌, ◌≡◌, refl, ap, sym, ◌∙◌, nat_eq, List, [], ◌∷◌, Option, none, some, Bool-cases,
  if_true, if_false, inl, inr, arith,
}
use lib_meridian.OrdMap.{OrdMap, find, erase, Sorted, same}
use lib_meridian.OrdMap.Laws.{find-erase, same_refl}
use lib_meridian.Timeval.{Timeval, timeval_key}
use lib_meridian.Timeouts.{TimeoutMap}
use lib_meridian.Timeouts.Agreement.{once_at}
use lib_meridian.Vector.{count}
use lib_meridian.Vector.Counts.{count-append}
use lib_meridian.QueryTable.Order.{id_key}
use lib_meridian.QueryTable.{QueryClass, QueryTable}
use lib_meridian.QueryTable.Validity.{due, IsValid}
use lib_meridian.QueryTable.{all_queries, delete_all, destroy}
use lib_meridian.QueryTable.Expiry.{Listed, Listed-tail, Listed-head, tail_due}

-- 1 for a query that has a time.
abbrev pub listed_once : Option Timeval → ℕ
listed_once none = 0
listed_once (some tv) = 1

listed_once-tail :
    (tv : Timeval) (o : Option Timeval) → listed_once o ≡ once_at tv o + listed_once (tail_due tv o)
listed_once-tail tv none = refl
listed_once-tail tv (some d) = elim (Bool-cases (same d tv)) [
  | inl g ↦ omega (arith, if_true {A = ℕ} 1 0 g, ap listed_once (if_true none (some d) g))
  | inr g ↦ omega (arith, if_false {A = ℕ} 1 0 g, ap listed_once (if_false none (some d) g))
]

nothing-Listed : (k : ℕ) (o : Option Timeval) → Listed k o [] → 0 ≡ listed_once o
unfolding find count
nothing-Listed k none l = refl
nothing-Listed k (some d) l = absurd (omega (arith, l d ∙ if_true {A = ℕ} 1 0 (same_refl d)))

count-all_queries :
    (k : ℕ) (o : Option Timeval) (m : TimeoutMap ℕ)
    → Sorted m
    → Listed k o m
    → count k (all_queries m) ≡ listed_once o
unfolding all_queries count
count-all_queries k o [] s l = nothing-Listed k o l
count-all_queries k o ((tv, vect) ∷ m) s l = omega (
  arith,
  count-append k vect (all_queries m),
  Listed-head k o tv vect m l,
  count-all_queries k (tail_due tv o) m s.1 (Listed-tail k o tv vect m s.0 l),
  listed_once-tail tv o,
)

-- The deletions succeed, and what was deleted or absent is absent.
record Deleted {Q : Type 0} (ids : List ℕ) (queries : OrdMap ℕ Q) (o : Option (OrdMap ℕ Q))
    : Type 0 where
  left : OrdMap ℕ Q
  success : o ≡ some left
  gone : (k : ℕ) → 1 ≤ count k ids → find k left ≡ none
  absent : (k : ℕ) → find k queries ≡ none → find k left ≡ none

delete_first :
    {Q : Type 0} (id : ℕ) (q : Q) (ids : List ℕ) (queries : OrdMap ℕ Q)
    → find id queries ≡ some q
    → Deleted ids (erase id queries) (delete_all ids (erase id queries))
    → Deleted (id ∷ ids) queries (delete_all (id ∷ ids) queries)
unfolding delete_all count
delete_first id q ids queries f d = record {
  left = d.left;
  success = rw (delete_all, f) d.success;
  gone = λ k h. elim (Bool-cases (same k id)) [
    | inl g ↦ d.absent k (find-erase k id queries ∙ if_true _ _ g)
    | inr g ↦ d.gone k (ground (arith, h, g))
  ];
  absent = λ k h. d.absent k (
      find-erase k id queries
      ∙ elim (Bool-cases (same k id)) [ inl g ↦ if_true _ _ g | inr g ↦ if_false _ _ g ∙ h ]);
}

not_listed_again :
    {Q : Type 0} (id k : ℕ) (ids : List ℕ) (queries : OrdMap ℕ Q)
    → ((j : ℕ) → count j (id ∷ ids) ≤ 1)
    → ((j : ℕ) → find j queries ≡ none → count j (id ∷ ids) ≡ 0)
    → find k (erase id queries) ≡ none
    → count k ids ≡ 0
unfolding count
not_listed_again id k ids queries once there h = elim (Bool-cases (same k id)) [
  | inl g ↦ ground (arith, once k, g)
  | inr g ↦ ground (arith, there k (sym (if_false _ _ g) ∙ sym (find-erase k id queries) ∙ h))
]

delete_all_lem :
    {Q : Type 0} (ids : List ℕ) (queries : OrdMap ℕ Q)
    → ((k : ℕ) → count k ids ≤ 1)
    → ((k : ℕ) → find k queries ≡ none → count k ids ≡ 0)
    → Deleted ids queries (delete_all ids queries)
unfolding delete_all count
delete_all_lem [] queries once there = record {
  left = queries;
  success = refl;
  gone = λ k h. absurd (omega (arith, h));
  absent = λ k h. h;
}
delete_all_lem {Q = Q} (id ∷ ids) queries once there = first (find id queries) refl (
    delete_all_lem ids (erase id queries) (λ k. ground (arith, once k))
      (λ k h. not_listed_again id k ids queries once there h))
  where
    first :
        (o : Option Q)
        → find id queries ≡ o
        → Deleted ids (erase id queries) (delete_all ids (erase id queries))
        → Deleted (id ∷ ids) queries (delete_all (id ∷ ids) queries)
    first none f d = absurd (ground (arith, there id f))
    first (some q) f d = delete_first id q ids queries f d

no_keys : {Q : Type 0} (m : OrdMap ℕ Q) → ((k : ℕ) → find k m ≡ none) → m ≡ []
unfolding find
no_keys [] h = refl
no_keys ((j, q) ∷ m) h = absurd (cc (h j, if_true (some q) (find j m) (same_refl j)))

-- The destructor of a valid table deletes every query exactly once and leaves none.
pub destroy_lem :
    {Q : Type 0} (c : QueryClass Q) (t : QueryTable Q) → IsValid c t → destroy t ≡ some []
unfolding destroy
destroy_lem {Q = Q} c t v =
    let counted : (k : ℕ) → count k (all_queries t.timeout_query_map) ≡ listed_once (due t k) = λ k.
      count-all_queries k (due t k) t.timeout_query_map v.agrees.ordered
        (λ tv. v.agrees.listed tv k) in
    let d =
      delete_all_lem (all_queries t.timeout_query_map) t.queries
        (λ k. at_most (due t k) (counted k))
        (λ k h. counted k ∙ ap listed_once ((v.owned k).1 h)) in
    d.success
    ∙ ap some
        (no_keys d.left (λ k. every d.left k (due t k) refl (counted k) (d.absent k) (d.gone k)))
  where
    at_most : {n : ℕ} (o : Option Timeval) → n ≡ listed_once o → n ≤ 1
    at_most none h = omega (arith, h)
    at_most (some tv) h = omega (arith, h)

    every :
        {n : ℕ} (left : OrdMap ℕ Q) (k : ℕ) (o : Option Timeval)
        → due t k ≡ o
        → n ≡ listed_once o
        → (find k t.queries ≡ none → find k left ≡ none)
        → (1 ≤ n → find k left ≡ none)
        → find k left ≡ none
    every left k none e h a g = a ((v.owned k).0 e)
    every left k (some tv) e h a g = g (omega (arith, h))
