-- ===== src/QueryTable/Validity.antt =====
-- The two maps of the query table agree with each other and with the queries that there are.
use lib_meridian.Prelude.{
  ℕ, ◌≡◌, refl, true, ◌==◌, nat_eq, Option, none, some, if◌then◌else◌, Bool-cases, inl, inr, arith,
  ◌↔◌,
}
use lib_meridian.OrdMap.{OrdMap, find, erase}
use lib_meridian.OrdMap.Laws.{find-insert, find-erase}
use lib_meridian.Timeval.{Timeval, timeval_key, normalize_time}
use lib_meridian.Timeouts.{push_timeout}
use lib_meridian.Timeouts.Agreement.{
  Agree, Agree-nil, Agree-same, push-Agree, remove-Agree, due-count, or_nil,
}
use lib_meridian.Vector.Counts.{count-absent}
use lib_meridian.QueryTable.Order.{id_key}
use lib_meridian.QueryTable.{
  QueryClass, QueryTable, new_query_table, add_timeout, retrieve_old_timeout, remove_old_timeout,
  found_query,
}

-- When a query times out.
abbrev pub due : {Q : Type 0} → QueryTable Q → ℕ → Option Timeval
due t k = find k t.query_timeout_map

-- Every query has a time, stands in the vector of the time, and is there under its id.
pub record IsValid {Q : Type 0} (c : QueryClass Q) (t : QueryTable Q) : Type 0 where
  pub agrees : Agree (due t) t.timeout_query_map
  pub owned : (k : ℕ) → (due t k ≡ none) ↔ (find k t.queries ≡ none)
  pub named : (k : ℕ) (q : Q) → find k t.queries ≡ some q → c.query_id q ≡ k

due-erase :
    (id k : ℕ) (m : OrdMap ℕ Timeval) → (if id == k then none else find k m) ≡ find k (erase id m)
due-erase id k m = ground (arith, find-erase k id m)

module _ {Q : Type 0} ⦃c : QueryClass Q⦄ where
  pub new_query_table-IsValid : IsValid c new_query_table
  unfolding find
  new_query_table-IsValid = record {
    agrees = Agree-nil;
    owned = λ k. (λ x. refl, λ x. refl);
    named = λ k q h. absurd (cc);
  }

  -- The table without the time of a query.
  pub record Removed (id : ℕ) (t t' : QueryTable Q) : Type 0 where
    pub agrees : Agree (due t') t'.timeout_query_map
    pub times : (k : ℕ) → due t' k ≡ (if k == id then none else due t k)
    pub queries : t'.queries ≡ t.queries

  found_query_lem :
      (id : ℕ) (tv : Timeval) (t : QueryTable Q)
      → Agree (due t) t.timeout_query_map
      → due t id ≡ some tv
      → found_query tv id t ≡ true
  found_query_lem id tv t a h = elim (Bool-cases (found_query tv id t)) [
    | inl g ↦ g
    | inr g ↦ absurd (
        omega (
          arith,
          due-count (due t) tv id t.timeout_query_map a h,
          count-absent id (or_nil (find tv t.timeout_query_map)) g,
        ))
  ]

  pub remove_old_timeout_lem :
      (id : ℕ) (tv : Timeval) (t : QueryTable Q)
      → Agree (due t) t.timeout_query_map
      → due t id ≡ some tv
      → (t' : QueryTable Q) × (remove_old_timeout id t ≡ some t') × Removed id t t'
  unfolding remove_old_timeout retrieve_old_timeout
  remove_old_timeout_lem id tv t a h =
      let (m, removed, agrees) = remove-Agree (due t) tv id t.timeout_query_map a h in
      let found = found_query_lem id tv t a h in
      let t' : QueryTable Q = record t {
        query_timeout_map = erase id t.query_timeout_map;
        timeout_query_map = m;
      } in
      (
        t',
        rw (h, removed, found) refl,
        record {
          agrees =
              Agree-same (λ j. if id == j then none else due t j) (due t') m
                (λ j. due-erase id j t.query_timeout_map) agrees;
          times = λ k. find-erase k id t.query_timeout_map;
          queries = refl;
        },
      )

  -- The table with the time of a query that had none.
  pub record Added (q : Q) (t t' : QueryTable Q) : Type 0 where
    pub agrees : Agree (due t') t'.timeout_query_map
    pub times :
        (k : ℕ)
        → due t' k ≡ (if k == c.query_id q then some (normalize_time (c.time_out q)) else due t k)
    pub queries : t'.queries ≡ t.queries

  pub add_timeout_lem :
      (q : Q) (t : QueryTable Q)
      → Agree (due t) t.timeout_query_map
      → due t (c.query_id q) ≡ none
      → Added q t (add_timeout q t)
  unfolding add_timeout
  add_timeout_lem q t a h =
      let tv = normalize_time (c.time_out q) in
      let id = c.query_id q in
      record {
        agrees =
            Agree-same (λ j. if id == j then some tv else due t j) (due (add_timeout q t))
              (push_timeout tv id t.timeout_query_map)
              (λ j. ground (arith, find-insert j id tv t.query_timeout_map))
              (push-Agree (due t) tv id t.timeout_query_map a h);
        times = λ k. find-insert k id tv t.query_timeout_map;
        queries = refl;
      }
