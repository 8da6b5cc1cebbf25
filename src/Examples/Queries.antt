-- ===== src/Examples/Queries.antt =====
-- Query tables, of queries that a handler finishes.
use lib_meridian.Prelude.{
  ℕ, ◌≡◌, refl, sym, ap, ◌∙◌, subst, Bool, true, false, ◌==◌, nat_eq, [], ◌∷◌, Option, none, some,
  pos, negsuc, Bool-cases, if_true, if_false, inl, inr, arith, ◌⊎◌,
}
use lib_meridian.Node.{NodeIdent}
use lib_meridian.OrdMap.{find, insert, precedes}
use lib_meridian.OrdMap.Laws.{find-insert, same_refl}
use lib_meridian.Timeval.{Timeval, timeval_key, timed_out, normalize_time}
use lib_meridian.Timeouts.{push_timeout}
use lib_meridian.QueryTable.Order.{id_key}
use lib_meridian.QueryTable.{
  QueryClass, QueryTable, new_query_table, insert_new_query, update_timeout, notify_q_packet,
  handle_timeout, next_timeout, is_query_in_table, add_timeout,
}
use lib_meridian.QueryTable.Validity.{due, IsValid, new_query_table-IsValid}
use lib_meridian.QueryTable.Updates.{Updated, update_timeout_lem}
use lib_meridian.QueryTable.Notices.{
  Inserted, Handles, Notified, insert_new_query_lem, notify_q_packet_lem, next_timeout_lem,
}
use lib_meridian.QueryTable.Rounds.{Renews, handle_timeout_lem}
use lib_meridian.QueryTable.Ending.{destroy_lem}
use lib_meridian.QueryTable.{destroy}

record Sample : Type 0 where
  id : ℕ
  when : Timeval
  over : Bool

instance abbrev sample_class : QueryClass Sample
sample_class = record { query_id = λ q. q.id; time_out = λ q. q.when; is_finished = λ q. q.over }

abbrev finished : Sample → Sample
finished q = record q { over = true }

-- The handler finishes its query.
abbrev finish : ℕ → QueryTable Sample → Option (QueryTable Sample)
finish id t = elim (find id t.queries) [
  | none ↦ some t
  | some q ↦ some (record t { queries = insert id (finished q) t.queries })
]

finished_table : ℕ → Sample → QueryTable Sample → QueryTable Sample
finished_table id q t = record t { queries = insert id (finished q) t.queries }

finished_table-IsValid :
    (id : ℕ) (q : Sample) (t : QueryTable Sample)
    → IsValid sample_class t
    → find id t.queries ≡ some q
    → IsValid sample_class (finished_table id q t)
unfolding finished_table
finished_table-IsValid id q t v f = record {
  agrees = v.agrees;
  owned = λ k. elim (Bool-cases (k == id)) [
    | inl g ↦
        let e = (nat_eq.test_iff k id).0 g in
        (
          λ x. absurd (cc ((v.owned k).0 x, ap (λ y. find y t.queries) e, f)),
          λ x. absurd (cc (x, find-insert k id (finished q) t.queries ∙ if_true _ _ g)),
        )
    | inr g ↦ (
      λ x. find-insert k id (finished q) t.queries ∙ if_false _ _ g ∙ (v.owned k).0 x,
      λ x. (v.owned k).1 (sym (find-insert k id (finished q) t.queries ∙ if_false _ _ g) ∙ x),
    )
  ];
  named = λ k p g. elim (Bool-cases (k == id)) [
    | inl h ↦
        let same : finished q ≡ p =
          cc (find-insert k id (finished q) t.queries ∙ if_true _ _ h, g) in
        ap sample_class.query_id (sym same) ∙ v.named id q f ∙ sym ((nat_eq.test_iff k id).0 h)
    | inr h ↦ v.named k p (sym (find-insert k id (finished q) t.queries ∙ if_false _ _ h) ∙ g)
  ];
}

finish-Renews : (cur_time : Timeval) (id : ℕ) → Renews cur_time id (finish id)
unfolding is_query_in_table finished_table
finish-Renews cur_time id t v h = go (find id t.queries) refl
  where
    go :
        (o : Option Sample)
        → find id t.queries ≡ o
        → (t' : QueryTable Sample) × (finish id t ≡ some t')
          × IsValid sample_class t'
          × ((k : ℕ) (tv : Timeval) → due t k ≡ some tv → due t' k ≡ some tv)
          × ((k : ℕ) (tv : Timeval)
              → due t k ≡ none
              → due t' k ≡ some tv
              → timed_out tv cur_time ≡ false)
          × ((q : Sample)
              → find id t'.queries ≡ some q
              → sample_class.is_finished q ≡ false
              → timed_out (normalize_time (sample_class.time_out q)) cur_time ≡ false)
    go none f = absurd (ground (arith, h, (v.owned id).1 f))
    go (some q) f = (
      finished_table id q t,
      rw (finish, f) refl,
      finished_table-IsValid id q t v f,
      (λ k tv d. d),
      (λ k tv d g. absurd (cc (d, g))),
      λ p g n.
          let same : finished q ≡ p =
            cc (find-insert id id (finished q) t.queries ∙ if_true _ _ (same_refl id), g) in
          absurd (cc (n, ap sample_class.is_finished same)),
    )

finish-Handles : (id : ℕ) → Handles id (finish id)
unfolding is_query_in_table
finish-Handles id t v h =
    let (t', e, w, kept, later, renewed) =
      finish-Renews (record { tv_sec = 0; tv_usec = 0 }) id t v h in
    (t', e, w, still (due t id) (due t' id) h (kept id))
  where
    still :
        (o p : Option Timeval)
        → (elim o [ none ↦ false | some tv ↦ true ]) ≡ true
        → ((tv : Timeval) → o ≡ some tv → p ≡ some tv)
        → (elim p [ none ↦ false | some tv ↦ true ]) ≡ true
    still none p h k = absurd (cc (h))
    still (some tv) p h k = rw (k tv refl) refl

abbrev noon : Timeval
noon = record { tv_sec = 43200; tv_usec = 0 }

abbrev soon : Timeval
soon = record { tv_sec = 43200; tv_usec = 250000 }

abbrev first : Sample
first = record { id = 17; when = soon; over = false }

abbrev one_query : QueryTable Sample
one_query = record {
  query_timeout_map = (17, soon) ∷ [];
  timeout_query_map = (soon, 17 ∷ []) ∷ [];
  queries = (17, first) ∷ [];
}

insert-one_query : insert_new_query first new_query_table ≡ (one_query, pos 0)
unfolding insert_new_query is_query_in_table add_timeout find insert normalize_time push_timeout
insert-one_query = refl

one_query-IsValid : IsValid sample_class one_query
unfolding is_query_in_table find
one_query-IsValid = elim (insert_new_query_lem first new_query_table new_query_table-IsValid) [
  | inl (h, e) ↦ absurd (cc (h))
  | inr (t', h, e, i) ↦
      subst (IsValid sample_class) (ap (λ x. x.0) (sym e ∙ insert-one_query)) i.valid
]

present : is_query_in_table 17 one_query ≡ true
unfolding is_query_in_table find
present = refl

insert_new_query_lem_example :
    ((is_query_in_table 17 one_query ≡ true)
      × (insert_new_query first one_query ≡ (one_query, negsuc 0)))
    ⊎ ((t' : QueryTable Sample) × (is_query_in_table 17 one_query ≡ false)
        × (insert_new_query first one_query ≡ (t', pos 0))
        × Inserted first one_query t')
insert_new_query_lem_example = insert_new_query_lem first one_query one_query-IsValid

update_timeout_lem_example :
    (t' : QueryTable Sample) × (update_timeout 17 one_query ≡ some t') × Updated 17 one_query t'
update_timeout_lem_example = update_timeout_lem 17 one_query one_query-IsValid present

abbrev sender : NodeIdent
sender = record { addr = 3232235777; port = 3964 }

notify_q_packet_lem_example :
    ((is_query_in_table 17 one_query ≡ false)
      × (notify_q_packet (λ id node packet. finish id) 17 sender (2 ∷ []) one_query
          ≡ some (one_query, negsuc 0)))
    ⊎ ((t' : QueryTable Sample) × (is_query_in_table 17 one_query ≡ true)
        × (notify_q_packet (λ id node packet. finish id) 17 sender (2 ∷ []) one_query
            ≡ some (t', pos 0))
        × Notified (finish 17) 17 one_query t')
notify_q_packet_lem_example =
    notify_q_packet_lem (λ id node packet. finish id) 17 sender (2 ∷ []) one_query
      (finish-Handles 17) one_query-IsValid

next_timeout_lem_example :
    (((k : ℕ) → due one_query k ≡ none)
      × (next_timeout noon one_query ≡ record { tv_sec = 43205; tv_usec = 0 }))
    ⊎ ((id : ℕ) × (due one_query id ≡ some (next_timeout noon one_query))
        × ((k : ℕ) (tv : Timeval)
            → due one_query k ≡ some tv
            → precedes tv (next_timeout noon one_query) ≡ false))
next_timeout_lem_example = next_timeout_lem noon one_query one_query-IsValid

handle_timeout_lem_example :
    (t' : QueryTable Sample) × (handle_timeout finish
        (record { tv_sec = 43201; tv_usec = 0 })
        one_query
      ≡ some t')
    × IsValid sample_class t'
    × ((k : ℕ) (tv : Timeval)
        → due t' k ≡ some tv
        → timed_out tv (normalize_time (record { tv_sec = 43201; tv_usec = 0 })) ≡ false)
    × ((k : ℕ) (tv : Timeval)
        → due one_query k ≡ some tv
        → timed_out tv (normalize_time (record { tv_sec = 43201; tv_usec = 0 })) ≡ false
        → due t' k ≡ some tv)
handle_timeout_lem_example =
    handle_timeout_lem finish (record { tv_sec = 43201; tv_usec = 0 }) one_query
      (finish-Renews (normalize_time (record { tv_sec = 43201; tv_usec = 0 }))) one_query-IsValid

destroy_lem_example : destroy one_query ≡ some []
destroy_lem_example = destroy_lem sample_class one_query one_query-IsValid
