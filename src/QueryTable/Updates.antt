-- ===== src/QueryTable/Updates.antt =====
-- QueryTable::updateTimeout, on every branch.
use lib_meridian.Prelude.{
  ℕ, ◌≡◌, refl, ap, sym, ◌∙◌, Bool, true, false, ◌==◌, nat_eq, Option, none, some, if◌then◌else◌,
  Bool-cases, inl, inr, arith, ◌↔◌,
}
use lib_meridian.OrdMap.{find}
use lib_meridian.OrdMap.Laws.{find-erase, same_refl}
use lib_meridian.Timeval.{Timeval, timeval_key, normalize_time}
use lib_meridian.Timeouts.Agreement.{Agree}
use lib_meridian.QueryTable.Order.{id_key}
use lib_meridian.QueryTable.{
  QueryClass, QueryTable, add_timeout, delete, update_timeout, is_query_in_table,
}
use lib_meridian.QueryTable.Validity.{
  due, IsValid, Removed, remove_old_timeout_lem, add_timeout_lem,
}

module _ {Q : Type 0} ⦃c : QueryClass Q⦄ where
  -- What updateTimeout leaves: a query that is finished is gone, another one has its new time, and the
  -- other queries stay.
  pub record Updated (id : ℕ) (t t' : QueryTable Q) : Type 0 where
    pub valid : IsValid c t'
    pub query :
        (q : Q)
        → find id t.queries ≡ some q
        → (find id t'.queries ≡ (if c.is_finished q then none else some q))
          × (due t' id ≡ (if c.is_finished q then none else some (normalize_time (c.time_out q))))
    pub others :
        (k : ℕ) → (k == id) ≡ false → (find k t'.queries ≡ find k t.queries) × (due t' k ≡ due t k)

  -- What updateTimeout does to the entries of the query.
  record Effect (id : ℕ) (q : Q) (t t' : QueryTable Q) : Type 0 where
    agrees : Agree (due t') t'.timeout_query_map
    found :
        (k : ℕ)
        → find k t'.queries
          ≡ (if k == id then (if c.is_finished q then none else some q) else find k t.queries)
    times :
        (k : ℕ)
        → due t' k ≡ (
            if k == id
            then (if c.is_finished q then none else some (normalize_time (c.time_out q)))
            else due t k)

  both_absent :
      (q : Q) (b : Bool) (tv : Timeval)
      → ((if b then none else some tv) ≡ none) ↔ ((if b then none else some q) ≡ none)
  both_absent q true tv = (λ x. refl, λ x. refl)
  both_absent q false tv = (λ x. absurd (cc), λ x. absurd (cc))

  same_query : (q p : Q) (b : Bool) → (if b then none else some q) ≡ some p → q ≡ p
  same_query q p true h = absurd (cc)
  same_query q p false h = cc

  Effect-Updated :
      (id : ℕ) (q : Q) (t t' : QueryTable Q)
      → IsValid c t
      → find id t.queries ≡ some q
      → Effect id q t t'
      → Updated id t t'
  Effect-Updated id q t t' v f e = record {
    valid = record {
      agrees = e.agrees;
      owned = λ k. (
        λ x. e.found k ∙ (owned k).0 (sym (e.times k) ∙ x),
        λ x. e.times k ∙ (owned k).1 (sym (e.found k) ∙ x),
      );
      named = λ k p g. named k p (sym (e.found k) ∙ g);
    };
    query = λ p g.
        let same : q ≡ p = cc (f, g) in
        (e.found id ∙ rw (same_refl id, same) refl, e.times id ∙ rw (same_refl id, same) refl);
    others = λ k g. (e.found k ∙ rw g refl, e.times k ∙ rw g refl);
  }
    where
      owned :
          (k : ℕ)
          → ((if k == id
                then (if c.is_finished q then none else some (normalize_time (c.time_out q)))
                else due t k)
              ≡ none)
            ↔ ((if k == id then (if c.is_finished q then none else some q) else find k t.queries)
                ≡ none)
      owned k = elim (Bool-cases (k == id)) [
        | inl g ↦ rw g (both_absent q (c.is_finished q) (normalize_time (c.time_out q)))
        | inr g ↦ rw g (v.owned k)
      ]

      named :
          (k : ℕ) (p : Q)
          → (if k == id then (if c.is_finished q then none else some q) else find k t.queries)
            ≡ some p
          → c.query_id p ≡ k
      named k p g = elim (Bool-cases (k == id)) [
        | inl h ↦
            ap c.query_id (sym (same_query q p (c.is_finished q) (sym (rw h refl) ∙ g)))
            ∙ v.named id q f
            ∙ sym ((nat_eq.test_iff k id).0 h)
        | inr h ↦ v.named k p (sym (rw h refl) ∙ g)
      ]

  finished_query :
      (id : ℕ) (q : Q) (t b : QueryTable Q)
      → c.is_finished q ≡ true
      → Removed id t b
      → Effect id q t (delete id b)
  unfolding delete
  finished_query id q t b fin r = record {
    agrees = r.agrees;
    found = λ k. find-erase k id b.queries ∙ rw (r.queries, fin) refl;
    times = λ k. r.times k ∙ rw fin refl;
  }

  unfinished_query :
      (id : ℕ) (q : Q) (t b : QueryTable Q)
      → c.is_finished q ≡ false
      → c.query_id q ≡ id
      → find id t.queries ≡ some q
      → Removed id t b
      → Effect id q t (add_timeout q b)
  unfinished_query id q t b fin n f r =
      let gone : due b (c.query_id q) ≡ none = ap (due b) n ∙ r.times id ∙ rw (same_refl id) refl in
      let added = add_timeout_lem q b r.agrees gone in
      record {
        agrees = added.agrees;
        found = λ k. ap (find k) (added.queries ∙ r.queries) ∙ elim (Bool-cases (k == id)) [
          | inl g ↦ rw (g, fin) (ap (λ x. find x t.queries) ((nat_eq.test_iff k id).0 g) ∙ f)
          | inr g ↦ rw g refl
        ];
        times = λ k. added.times k ∙ ground (arith, n, fin, r.times k);
      }

  -- In a valid table, updateTimeout of a query that is in it fails no assert and leaves a valid table: the
  -- query is gone where it is finished and has its new time where not, and every other query stays with its
  -- time.
  pub update_timeout_lem :
      (id : ℕ) (t : QueryTable Q)
      → IsValid c t
      → is_query_in_table id t ≡ true
      → (t' : QueryTable Q) × (update_timeout id t ≡ some t') × Updated id t t'
  unfolding update_timeout is_query_in_table
  update_timeout_lem id t v h = go (due t id) refl (find id t.queries) refl
    where
      go :
          (o : Option Timeval)
          → due t id ≡ o
          → (p : Option Q) → find id t.queries ≡ p
          → (t' : QueryTable Q) × (update_timeout id t ≡ some t') × Updated id t t'
      go none d p f = absurd (ground (arith, h, d))
      go (some tv) d none f = absurd (cc (d, (v.owned id).1 f))
      go (some tv) d (some q) f =
          let (b, removed, r) = remove_old_timeout_lem id tv t v.agrees d in
          let there : find id b.queries ≡ some q = ap (find id) r.queries ∙ f in
          elim (Bool-cases (c.is_finished q)) [
            | inl fin ↦ (
              delete id b,
              rw (update_timeout, removed, there, fin) refl,
              Effect-Updated id q t (delete id b) v f (finished_query id q t b fin r),
            )
            | inr fin ↦ (
              add_timeout q b,
              rw (update_timeout, removed, there, fin) refl,
              Effect-Updated id q t (add_timeout q b) v f
                  (unfinished_query id q t b fin (v.named id q f) f r),
            )
          ]
