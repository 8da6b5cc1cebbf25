-- ===== src/QueryTable.antt =====
-- class QueryTable of QueryTable.h and QueryTable.cpp: the queries in progress and their time-outs, in
-- two maps. A pointer to a query stands as its id, and `queries` holds the objects behind the pointers,
-- so `delete` takes an object out. The virtual functions of a query are an interface: its id, its time
-- and its end are read, and a handler is a function on the table, which it may call back.
-- A failing assert and the use of a query that is not there are `none`.
pub mod Order
pub mod Validity
pub mod Updates
pub mod Notices
pub mod Expiry
pub mod Rounds
pub mod Ending
use lib_meridian.Prelude.{
  ℕ, ◌+◌, ◌≡◌, Bool, true, false, ◌==◌, nat_eq, List, [], ◌∷◌, ◌++◌, Option, none, some, ℤ, pos,
  negsuc, if◌then◌else◌,
}
use lib_meridian.Node.{NodeIdent, NodeIdentLat}
use lib_meridian.OrdMap.{OrdMap, find, insert, erase}
use lib_meridian.Timeval.{Timeval, timed_out, normalize_time, timeval_key}
use lib_meridian.Timeouts.{TimeoutMap, push_timeout, remove_timeout}
use lib_meridian.Timeouts.Agreement.{or_nil}
use lib_meridian.Vector.{contains}
use lib_meridian.QueryTable.Order.{id_key}

pub record QueryClass (Q : Type 0) : Type 0 where
  pub query_id : Q → ℕ
  pub time_out : Q → Timeval
  pub is_finished : Q → Bool

pub record QueryTable (Q : Type 0) : Type 0 where
  pub query_timeout_map : OrdMap ℕ Timeval
  pub timeout_query_map : TimeoutMap ℕ
  pub queries : OrdMap ℕ Q

infixl 5 ◌and_then◌
abbrev pub ◌and_then◌ : {A B : Type 0} → Option A → (A → Option B) → Option B
none and_then f = none
(some a) and_then f = f a

-- deleteQueries: the queries whose time is over, in the order of the times.
unfoldable pub timed_out_queries : Timeval → TimeoutMap ℕ → List ℕ
timed_out_queries cur_time [] = []
timed_out_queries cur_time ((s1, vect) ∷ m) =
    if timed_out s1 cur_time
    then vect ++ timed_out_queries cur_time m
    else timed_out_queries cur_time m

abbrev pub default_time_out_s : ℕ
default_time_out_s = 5

module _ {Q : Type 0} ⦃c : QueryClass Q⦄ where
  abbrev pub new_query_table : QueryTable Q
  new_query_table = record { query_timeout_map = []; timeout_query_map = []; queries = [] }

  unfoldable pub add_timeout : Q → QueryTable Q → QueryTable Q
  add_timeout q t =
      let tv = normalize_time (c.time_out q) in
      record t {
        query_timeout_map = insert (c.query_id q) tv t.query_timeout_map;
        timeout_query_map = push_timeout tv (c.query_id q) t.timeout_query_map;
      }

  unfoldable pub retrieve_old_timeout : ℕ → QueryTable Q → Option Timeval
  retrieve_old_timeout id t = find id t.query_timeout_map

  -- foundQuery.
  abbrev pub found_query : Timeval → ℕ → QueryTable Q → Bool
  found_query tv id t = contains id (or_nil (find tv t.timeout_query_map))

  unfoldable pub remove_old_timeout : ℕ → QueryTable Q → Option (QueryTable Q)
  remove_old_timeout id t = retrieve_old_timeout id t and_then λ tv.
      remove_timeout tv id t.timeout_query_map and_then λ m.
      if found_query tv id t
      then some
          (record t { query_timeout_map = erase id t.query_timeout_map; timeout_query_map = m })
      else none

  unfoldable pub delete : ℕ → QueryTable Q → QueryTable Q
  delete id t = record t { queries = erase id t.queries }

  unfoldable pub update_timeout : ℕ → QueryTable Q → Option (QueryTable Q)
  update_timeout id t = remove_old_timeout id t and_then λ t'. find id t'.queries and_then λ q.
      some (if c.is_finished q then delete id t' else add_timeout q t')

  unfoldable pub is_query_in_table : ℕ → QueryTable Q → Bool
  is_query_in_table id t = elim (find id t.query_timeout_map) [ none ↦ false | some tv ↦ true ]

  -- The answer, and the table that owns the query from then on unless the answer is -1.
  unfoldable pub insert_new_query : Q → QueryTable Q → QueryTable Q × ℤ
  insert_new_query q t =
      if is_query_in_table (c.query_id q) t
      then (t, negsuc 0)
      else (add_timeout q (record t { queries = insert (c.query_id q) q t.queries }), pos 0)

  -- The part that notifyQPacket and notifyQLatency share, where `handler` is the virtual function.
  unfoldable pub notify :
      (QueryTable Q → Option (QueryTable Q)) → ℕ → QueryTable Q → Option (QueryTable Q × ℤ)
  notify handler id t =
      if is_query_in_table id t
      then (handler t and_then update_timeout id and_then λ t'. some (t', pos 0))
      else some (t, negsuc 0)

  unfoldable pub notify_q_packet :
      (ℕ → NodeIdent → List ℕ → QueryTable Q → Option (QueryTable Q))
      → ℕ
      → NodeIdent
      → List ℕ
      → QueryTable Q
      → Option (QueryTable Q × ℤ)
  notify_q_packet handle_event id remote_node packet t =
      notify (handle_event id remote_node packet) id t

  unfoldable pub notify_q_latency :
      (ℕ → List NodeIdentLat → QueryTable Q → Option (QueryTable Q))
      → ℕ
      → List NodeIdentLat
      → QueryTable Q
      → Option (QueryTable Q × ℤ)
  notify_q_latency handle_latency id in_remote_nodes t =
      notify (handle_latency id in_remote_nodes) id t

  unfoldable pub run_timeouts :
      (ℕ → QueryTable Q → Option (QueryTable Q)) → List ℕ → QueryTable Q → Option (QueryTable Q)
  run_timeouts handler [] t = some t
  run_timeouts handler (id ∷ ids) t =
      handler id t and_then update_timeout id and_then run_timeouts handler ids

  unfoldable pub handle_timeout :
      (ℕ → QueryTable Q → Option (QueryTable Q)) → Timeval → QueryTable Q → Option (QueryTable Q)
  handle_timeout handler now t =
      run_timeouts handler (timed_out_queries (normalize_time now) t.timeout_query_map) t

  unfoldable pub next_timeout : Timeval → QueryTable Q → Timeval
  next_timeout now t = elim t.timeout_query_map [
    | [] ↦ record now { tv_sec = now.tv_sec + default_time_out_s }
    | (tv, vect) ∷ m ↦ tv
  ]

-- The destructor walks the vectors and deletes every query in them.
unfoldable pub all_queries : TimeoutMap ℕ → List ℕ
all_queries [] = []
all_queries ((tv, vect) ∷ m) = vect ++ all_queries m

-- `none` is a query that is deleted twice.
unfoldable pub delete_all : {Q : Type 0} → List ℕ → OrdMap ℕ Q → Option (OrdMap ℕ Q)
delete_all [] queries = some queries
delete_all (id ∷ ids) queries = elim (find id queries) [
  | none ↦ none
  | some q ↦ delete_all ids (erase id queries)
]

unfoldable pub destroy : {Q : Type 0} → QueryTable Q → Option (OrdMap ℕ Q)
destroy t = delete_all (all_queries t.timeout_query_map) t.queries
