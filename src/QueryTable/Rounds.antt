-- ===== src/QueryTable/Rounds.antt =====
-- QueryTable::handleTimeout runs the handler of every query that is due, and leaves none that is due.
use lib_meridian.Prelude.{
  ℕ, ◌≤◌, ◌≡◌, refl, ap, sym, ◌∙◌, true, false, ◌==◌, nat_eq, List, [], ◌∷◌, Option, none, some,
  Bool-cases, if_true, if_false, inl, inr, arith,
}
use lib_meridian.OrdMap.{find}
use lib_meridian.Timeval.{Timeval, timeval_key, normalize_time, timed_out}
use lib_meridian.Vector.{count}
use lib_meridian.QueryTable.Order.{id_key}
use lib_meridian.QueryTable.{
  QueryClass, QueryTable, update_timeout, timed_out_queries, run_timeouts, handle_timeout,
  is_query_in_table, ◌and_then◌,
}
use lib_meridian.QueryTable.Validity.{due, IsValid}
use lib_meridian.QueryTable.Updates.{Updated, update_timeout_lem}
use lib_meridian.QueryTable.Expiry.{over, count-timed_out_queries}

count_first : (k : ℕ) (ks : List ℕ) → 1 ≤ count k (k ∷ ks)
unfolding count
count_first k ks = ground arith

module _ {Q : Type 0} ⦃c : QueryClass Q⦄ where
  -- What the handler of a time-out promises for its query, where the time is `cur_time`: on a valid table
  -- that has the query it fails no assert and leaves a valid table, in which the queries that were there
  -- keep their recorded times, new ones are due later, and the query is finished or has a later time.
  abbrev pub Renews : Timeval → ℕ → (QueryTable Q → Option (QueryTable Q)) → Type 0
  Renews cur_time id handler =
      (t : QueryTable Q)
      → IsValid c t
      → is_query_in_table id t ≡ true
      → (t' : QueryTable Q) × (handler t ≡ some t')
        × IsValid c t'
        × ((k : ℕ) (tv : Timeval) → due t k ≡ some tv → due t' k ≡ some tv)
        × ((k : ℕ) (tv : Timeval)
            → due t k ≡ none
            → due t' k ≡ some tv
            → timed_out tv cur_time ≡ false)
        × ((q : Q)
            → find id t'.queries ≡ some q
            → c.is_finished q ≡ false
            → timed_out (normalize_time (c.time_out q)) cur_time ≡ false)

  -- The queries of a list are in the table, once, and no other is due.
  record Pending (cur_time : Timeval) (ids : List ℕ) (t : QueryTable Q) : Type 0 where
    once : (k : ℕ) → count k ids ≤ 1
    there : (k : ℕ) → 1 ≤ count k ids → is_query_in_table k t ≡ true
    rest :
        (k : ℕ) (tv : Timeval) → due t k ≡ some tv → count k ids ≡ 0 → timed_out tv cur_time ≡ false

  recorded :
      (k : ℕ) (t : QueryTable Q)
      → is_query_in_table k t ≡ true
      → (tv : Timeval) × (due t k ≡ some tv)
  unfolding is_query_in_table
  recorded k t h = go (due t k) refl
    where
      go : (o : Option Timeval) → due t k ≡ o → (tv : Timeval) × (due t k ≡ some tv)
      go (some tv) d = (tv, d)
      go none d = absurd (ground (arith, h, d))

  in_table :
      (k : ℕ) (tv : Timeval) (t : QueryTable Q) → due t k ≡ some tv → is_query_in_table k t ≡ true
  unfolding is_query_in_table
  in_table k tv t h = ground (arith, h)

  -- What the promise says of the table that a handler leaves.
  record Renewed (cur_time : Timeval) (id : ℕ) (t b : QueryTable Q) : Type 0 where
    valid : IsValid c b
    kept : (k : ℕ) (tv : Timeval) → due t k ≡ some tv → due b k ≡ some tv
    later :
        (k : ℕ) (tv : Timeval) → due t k ≡ none → due b k ≡ some tv → timed_out tv cur_time ≡ false
    renewed :
        (q : Q)
        → find id b.queries ≡ some q
        → c.is_finished q ≡ false
        → timed_out (normalize_time (c.time_out q)) cur_time ≡ false

  own_time :
      (cur_time tv s : Timeval) (id : ℕ) (t b t' : QueryTable Q)
      → Renewed cur_time id t b
      → Updated id b t'
      → due b id ≡ some tv
      → due t' id ≡ some s
      → timed_out s cur_time ≡ false
  own_time cur_time tv s id t b t' r u d g = go (find id b.queries) refl
    where
      go : (o : Option Q) → find id b.queries ≡ o → timed_out s cur_time ≡ false
      go none f = absurd (cc (d, (r.valid.owned id).1 f))
      go (some q) f = elim (Bool-cases (c.is_finished q)) [
        | inl fin ↦ absurd (cc (g, (u.query q f).1 ∙ if_true _ _ fin))
        | inr fin ↦
            let same : normalize_time (c.time_out q) ≡ s =
              cc (g, (u.query q f).1 ∙ if_false _ _ fin) in
            ap (λ x. timed_out x cur_time) (sym same) ∙ r.renewed q f fin
      ]

  other_time :
      (cur_time s : Timeval) (id k : ℕ) (ids : List ℕ) (t b : QueryTable Q)
      → Renewed cur_time id t b
      → Pending cur_time (id ∷ ids) t
      → (k == id) ≡ false
      → count k ids ≡ 0
      → due b k ≡ some s
      → timed_out s cur_time ≡ false
  unfolding count
  other_time cur_time s id k ids t b r p h z g = go (due t k) refl
    where
      go : (o : Option Timeval) → due t k ≡ o → timed_out s cur_time ≡ false
      go none d = r.later k s d g
      go (some w) d =
          let same : w ≡ s = cc (g, r.kept k w d) in
          p.rest k s (d ∙ ap some same) (ground (arith, h, z))

  Renewed-Pending :
      (cur_time tv : Timeval) (id : ℕ) (ids : List ℕ) (t b t' : QueryTable Q)
      → Renewed cur_time id t b
      → Updated id b t'
      → Pending cur_time (id ∷ ids) t
      → due b id ≡ some tv
      → Pending cur_time ids t'
  unfolding count
  Renewed-Pending cur_time tv id ids t b t' r u p d = record {
    once = λ k. ground (arith, p.once k);
    there = λ k h.
        let apart : (k == id) ≡ false = ground (arith, p.once k, h) in
        let (s, g) = recorded k t (p.there k (ground (arith, h))) in
        in_table k s t' ((u.others k apart).1 ∙ r.kept k s g);
    rest = λ k s g z. elim (Bool-cases (k == id)) [
      | inl h ↦
          own_time cur_time tv s id t b t' r u d
            (ap (due t') (sym ((nat_eq.test_iff k id).0 h)) ∙ g)
      | inr h ↦ other_time cur_time s id k ids t b r p h z (sym (u.others k h).1 ∙ g)
    ];
  }

  handled :
      (handler : ℕ → QueryTable Q → Option (QueryTable Q)) (cur_time : Timeval) (id : ℕ)
      (ids : List ℕ) (t : QueryTable Q)
      → ((k : ℕ) → Renews cur_time k (handler k))
      → IsValid c t
      → Pending cur_time (id ∷ ids) t
      → (t' : QueryTable Q) × ((handler id t and_then update_timeout id) ≡ some t')
        × IsValid c t'
        × Pending cur_time ids t'
        × ((k : ℕ) (tv : Timeval) → (k == id) ≡ false → due t k ≡ some tv → due t' k ≡ some tv)
  handled handler cur_time id ids t promise v p =
      let here = p.there id (count_first id ids) in
      let (b, e, w, kept, later, renewed) = promise id t v here in
      let (tv, d) = recorded id t here in
      let (t', f, u) = update_timeout_lem id b w (in_table id tv b (kept id tv d)) in
      let r : Renewed cur_time id t b = record {
        valid = w;
        kept = kept;
        later = later;
        renewed = renewed;
      } in
      (
        t',
        rw e f,
        u.valid,
        Renewed-Pending cur_time tv id ids t b t' r u p (kept id tv d),
        λ k s h g. (u.others k h).1 ∙ kept k s g,
      )

  run_timeouts_lem :
      (handler : ℕ → QueryTable Q → Option (QueryTable Q)) (cur_time : Timeval) (ids : List ℕ)
      (t : QueryTable Q)
      → ((k : ℕ) → Renews cur_time k (handler k))
      → IsValid c t
      → Pending cur_time ids t
      → (t' : QueryTable Q) × (run_timeouts handler ids t ≡ some t')
        × IsValid c t'
        × ((k : ℕ) (tv : Timeval) → due t' k ≡ some tv → timed_out tv cur_time ≡ false)
        × ((k : ℕ) (tv : Timeval) → count k ids ≡ 0 → due t k ≡ some tv → due t' k ≡ some tv)
  unfolding run_timeouts count
  run_timeouts_lem handler cur_time [] t promise v p =
      (t, refl, v, (λ k tv d. p.rest k tv d refl), λ k tv z d. d)
  run_timeouts_lem handler cur_time (id ∷ ids) t promise v p =
      let (b, e, w, p', kept) = handled handler cur_time id ids t promise v p in
      let (t', f, x, none_due, kept') = run_timeouts_lem handler cur_time ids b promise w p' in
      (
        t',
        ap (λ o. o and_then run_timeouts handler ids) e ∙ f,
        x,
        none_due,
        λ k tv z d. kept' k tv (ground (arith, z)) (kept k tv (ground (arith, z)) d),
      )

  due-Pending :
      (cur_time : Timeval) (t : QueryTable Q)
      → IsValid c t
      → Pending cur_time (timed_out_queries cur_time t.timeout_query_map) t
  due-Pending cur_time t v = record {
    once = λ k. le_one cur_time (due t k) (counted k);
    there = λ k h. present k (due t k) refl (counted k) h;
    rest = λ k tv d z. not_over cur_time tv (sym (counted k ∙ ap (over cur_time) d) ∙ z);
  }
    where
      counted :
          (k : ℕ)
          → count k (timed_out_queries cur_time t.timeout_query_map) ≡ over cur_time (due t k)
      counted k =
          count-timed_out_queries k (due t k) cur_time t.timeout_query_map v.agrees.ordered
            (λ tv. v.agrees.listed tv k)

      le_one : {n : ℕ} (cur : Timeval) (o : Option Timeval) → n ≡ over cur o → n ≤ 1
      le_one cur none h = omega (arith, h)
      le_one cur (some tv) h = ground (arith, h)

      present :
          {n : ℕ} (k : ℕ) (o : Option Timeval)
          → due t k ≡ o
          → n ≡ over cur_time o
          → 1 ≤ n
          → is_query_in_table k t ≡ true
      present k none d e h = absurd (omega (arith, e, h))
      present k (some tv) d e h = in_table k tv t d

      not_over : (cur tv : Timeval) → over cur (some tv) ≡ 0 → timed_out tv cur ≡ false
      not_over cur tv h = elim (Bool-cases (timed_out tv cur)) [
        | inl g ↦ absurd (omega (arith, sym (if_true 1 0 g) ∙ h))
        | inr g ↦ g
      ]

  -- handleTimeout on a valid table, where the handler of every query keeps its promise, ends without a
  -- failing assert. The table is valid, no query in it is due any more, and a query that was not due
  -- keeps its recorded time.
  pub handle_timeout_lem :
      (handler : ℕ → QueryTable Q → Option (QueryTable Q)) (now : Timeval) (t : QueryTable Q)
      → ((k : ℕ) → Renews (normalize_time now) k (handler k))
      → IsValid c t
      → (t' : QueryTable Q) × (handle_timeout handler now t ≡ some t')
        × IsValid c t'
        × ((k : ℕ) (tv : Timeval) → due t' k ≡ some tv → timed_out tv (normalize_time now) ≡ false)
        × ((k : ℕ) (tv : Timeval)
            → due t k ≡ some tv
            → timed_out tv (normalize_time now) ≡ false
            → due t' k ≡ some tv)
  unfolding handle_timeout
  handle_timeout_lem handler now t promise v =
      let cur_time = normalize_time now in
      let ids = timed_out_queries cur_time t.timeout_query_map in
      let (t', e, w, none_due, kept) =
        run_timeouts_lem handler cur_time ids t promise v (due-Pending cur_time t v) in
      (t', e, w, none_due, λ k tv d h. kept k tv (not_listed cur_time k tv d h) d)
    where
      not_listed :
          (cur : Timeval) (k : ℕ) (tv : Timeval)
          → due t k ≡ some tv
          → timed_out tv cur ≡ false
          → count k (timed_out_queries cur t.timeout_query_map) ≡ 0
      not_listed cur k tv d h =
          count-timed_out_queries k (due t k) cur t.timeout_query_map v.agrees.ordered
            (λ s. v.agrees.listed s k)
          ∙ ap (over cur) d
          ∙ if_false 1 0 h
