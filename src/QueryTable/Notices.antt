-- ===== src/QueryTable/Notices.antt =====
-- New queries, and packets and latencies for queries: insertNewQuery, notifyQPacket, notifyQLatency and
-- nextTimeout.
use lib_meridian.Prelude.{
  ℕ, ◌+◌, ◌≡◌, refl, ap, sym, ◌∙◌, subst, true, false, ◌==◌, nat_eq, List, [], ◌∷◌, Option, none,
  some, if◌then◌else◌, Bool-cases, if_true, if_false, inl, inr, arith, ◌⊎◌, pos, negsuc,
}
use lib_meridian.OrdMap.{find, insert, precedes}
use lib_meridian.OrdMap.Laws.{find-insert}
use lib_meridian.Node.{NodeIdent, NodeIdentLat}
use lib_meridian.Timeval.{Timeval, timeval_key, normalize_time}
use lib_meridian.Timeouts.{TimeoutMap}
use lib_meridian.Timeouts.First.{first_vector, no_empty_vector, nothing_due}
use lib_meridian.Timeouts.Agreement.{Agree}
use lib_meridian.QueryTable.Order.{id_key}
use lib_meridian.QueryTable.{
  QueryClass, QueryTable, add_timeout, notify, notify_q_packet, notify_q_latency, next_timeout,
  insert_new_query, is_query_in_table,
}
use lib_meridian.QueryTable.Validity.{due, IsValid, add_timeout_lem}
use lib_meridian.QueryTable.Updates.{Updated, update_timeout_lem}

module _ {Q : Type 0} ⦃c : QueryClass Q⦄ where
  in_table : (id : ℕ) (t : QueryTable Q) → is_query_in_table id t ≡ false → due t id ≡ none
  unfolding is_query_in_table
  in_table id t h = ground (arith, h)

  -- The table with a new query: it is there under its id with its time, and other queries stay.
  pub record Inserted (q : Q) (t t' : QueryTable Q) : Type 0 where
    pub valid : IsValid c t'
    pub found :
        (k : ℕ) → find k t'.queries ≡ (if k == c.query_id q then some q else find k t.queries)
    pub times :
        (k : ℕ)
        → due t' k ≡ (if k == c.query_id q then some (normalize_time (c.time_out q)) else due t k)

  Added-Inserted :
      (q : Q) (t t' : QueryTable Q)
      → IsValid c t
      → Agree (due t') t'.timeout_query_map
      → ((k : ℕ) → find k t'.queries ≡ (if k == c.query_id q then some q else find k t.queries))
      → ((k : ℕ)
          → due t' k
            ≡ (if k == c.query_id q then some (normalize_time (c.time_out q)) else due t k))
      → Inserted q t t'
  Added-Inserted q t t' v a f d = record {
    valid = record {
      agrees = a;
      owned = λ k. elim (Bool-cases (k == c.query_id q)) [
        | inl g ↦
            (λ x. absurd (cc (d k ∙ if_true _ _ g, x)), λ x. absurd (cc (f k ∙ if_true _ _ g, x)))
        | inr g ↦ (
          λ x. f k ∙ if_false _ _ g ∙ (v.owned k).0 (sym (d k ∙ if_false _ _ g) ∙ x),
          λ x. d k ∙ if_false _ _ g ∙ (v.owned k).1 (sym (f k ∙ if_false _ _ g) ∙ x),
        )
      ];
      named = λ k p g. elim (Bool-cases (k == c.query_id q)) [
        | inl h ↦
            let same : q ≡ p = cc (f k ∙ if_true _ _ h, g) in
            sym (ap c.query_id same) ∙ sym ((nat_eq.test_iff k (c.query_id q)).0 h)
        | inr h ↦ v.named k p (sym (f k ∙ if_false _ _ h) ∙ g)
      ];
    };
    found = f;
    times = d;
  }

  -- A query whose id is in the table is refused, with -1, and changes nothing. Another one is taken: it is
  -- in the table with its time, other queries stay as they are, and the table stays valid.
  pub insert_new_query_lem :
      (q : Q) (t : QueryTable Q)
      → IsValid c t
      → ((is_query_in_table (c.query_id q) t ≡ true) × (insert_new_query q t ≡ (t, negsuc 0)))
        ⊎ ((t' : QueryTable Q) × (is_query_in_table (c.query_id q) t ≡ false)
            × (insert_new_query q t ≡ (t', pos 0))
            × Inserted q t t')
  unfolding insert_new_query
  insert_new_query_lem q t v = elim (Bool-cases (is_query_in_table (c.query_id q) t)) [
    | inl h ↦ inl (h, rw (insert_new_query, h) refl)
    | inr h ↦
        let b : QueryTable Q = record t { queries = insert (c.query_id q) q t.queries } in
        let a = add_timeout_lem q b v.agrees (in_table (c.query_id q) t h) in
        inr (
          add_timeout q b,
          h,
          rw (insert_new_query, h) refl,
          Added-Inserted q t (add_timeout q b) v a.agrees
              (λ k. ap (find k) a.queries ∙ find-insert k (c.query_id q) q t.queries) a.times,
        )
  ]

  -- What a handler promises for a query: run on a valid table that has the query, it fails no assert and
  -- leaves a valid table that has the query.
  abbrev pub Handles : ℕ → (QueryTable Q → Option (QueryTable Q)) → Type 0
  Handles id handler =
      (t : QueryTable Q)
      → IsValid c t
      → is_query_in_table id t ≡ true
      → (t' : QueryTable Q) × (handler t ≡ some t')
        × IsValid c t'
        × (is_query_in_table id t' ≡ true)

  -- The handler ran, and then the query got its new time or went.
  pub record Notified (handler : QueryTable Q → Option (QueryTable Q)) (id : ℕ)
      (t t' : QueryTable Q) : Type 0 where
    pub handled : QueryTable Q
    pub run : handler t ≡ some handled
    pub updated : Updated id handled t'

  notify_lem :
      (handler : QueryTable Q → Option (QueryTable Q)) (id : ℕ) (t : QueryTable Q)
      → Handles id handler
      → IsValid c t
      → ((is_query_in_table id t ≡ false) × (notify handler id t ≡ some (t, negsuc 0)))
        ⊎ ((t' : QueryTable Q) × (is_query_in_table id t ≡ true)
            × (notify handler id t ≡ some (t', pos 0))
            × Notified handler id t t')
  unfolding notify
  notify_lem handler id t k v = elim (Bool-cases (is_query_in_table id t)) [
    | inr h ↦ inl (h, rw (notify, h) refl)
    | inl h ↦
        let (b, e, w, i) = k t v h in
        let (t', f, u) = update_timeout_lem id b w i in
        inr (t', h, rw (notify, h, e, f) refl, record { handled = b; run = e; updated = u })
  ]

  -- A packet for a query that is not in the table is answered with -1 and changes nothing. For a query in
  -- a valid table, whose handler keeps its promise, the handler runs, the query gets its new time or goes
  -- when it is finished, and the table is valid; no assert fails.
  pub notify_q_packet_lem :
      (handle_event : ℕ → NodeIdent → List ℕ → QueryTable Q → Option (QueryTable Q)) (id : ℕ)
      (remote_node : NodeIdent) (packet : List ℕ) (t : QueryTable Q)
      → Handles id (handle_event id remote_node packet)
      → IsValid c t
      → ((is_query_in_table id t ≡ false)
          × (notify_q_packet handle_event id remote_node packet t ≡ some (t, negsuc 0)))
        ⊎ ((t' : QueryTable Q) × (is_query_in_table id t ≡ true)
            × (notify_q_packet handle_event id remote_node packet t ≡ some (t', pos 0))
            × Notified (handle_event id remote_node packet) id t t')
  unfolding notify_q_packet
  notify_q_packet_lem handle_event id remote_node packet t =
      notify_lem (handle_event id remote_node packet) id t

  -- The same for latencies.
  pub notify_q_latency_lem :
      (handle_latency : ℕ → List NodeIdentLat → QueryTable Q → Option (QueryTable Q)) (id : ℕ)
      (in_remote_nodes : List NodeIdentLat) (t : QueryTable Q)
      → Handles id (handle_latency id in_remote_nodes)
      → IsValid c t
      → ((is_query_in_table id t ≡ false)
          × (notify_q_latency handle_latency id in_remote_nodes t ≡ some (t, negsuc 0)))
        ⊎ ((t' : QueryTable Q) × (is_query_in_table id t ≡ true)
            × (notify_q_latency handle_latency id in_remote_nodes t ≡ some (t', pos 0))
            × Notified (handle_latency id in_remote_nodes) id t t')
  unfolding notify_q_latency
  notify_q_latency_lem handle_latency id in_remote_nodes t =
      notify_lem (handle_latency id in_remote_nodes) id t

  -- The next event of a valid table is a time at which a query in it is due, and no query is due before; a
  -- table without queries has its next event five seconds from now.
  pub next_timeout_lem :
      (now : Timeval) (t : QueryTable Q)
      → IsValid c t
      → (((k : ℕ) → due t k ≡ none)
          × (next_timeout now t ≡ record { tv_sec = now.tv_sec + 5; tv_usec = now.tv_usec }))
        ⊎ ((id : ℕ) × (due t id ≡ some (next_timeout now t))
            × ((k : ℕ) (tv : Timeval)
                → due t k ≡ some tv
                → precedes tv (next_timeout now t) ≡ false))
  unfolding next_timeout
  next_timeout_lem now t v = go t.timeout_query_map refl
    where
      go :
          (m : TimeoutMap ℕ)
          → t.timeout_query_map ≡ m
          → (((k : ℕ) → due t k ≡ none)
              × (next_timeout now t ≡ record { tv_sec = now.tv_sec + 5; tv_usec = now.tv_usec }))
            ⊎ ((id : ℕ) × (due t id ≡ some (next_timeout now t))
                × ((k : ℕ) (tv : Timeval)
                    → due t k ≡ some tv
                    → precedes tv (next_timeout now t) ≡ false))
      go [] e = inl (
        (λ k. nothing_due (due t) k (subst (Agree (due t)) e v.agrees)),
        rw (next_timeout, e) refl,
      )
      go ((tv, []) ∷ rest) e =
          absurd (no_empty_vector (due t) tv rest (subst (Agree (due t)) e v.agrees))
      go ((tv, n ∷ ns) ∷ rest) e =
          let (o, w) = first_vector (due t) tv n ns rest (subst (Agree (due t)) e v.agrees) in
          let next : next_timeout now t ≡ tv = rw (next_timeout, e) refl in
          inr (
            n,
            o.is_due ∙ ap some (w ∙ sym next),
            λ k s d. ap (precedes s) (next ∙ sym w) ∙ o.first k s d,
          )
