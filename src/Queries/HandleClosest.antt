-- ===== src/Queries/HandleClosest.antt =====
-- class HandleClosestGeneric of Query.h and Query.cpp with its subclasses: the search for the node that
-- is closest to a set of targets. The node measures the targets, asks ring members to measure them, and
-- answers or forwards the search to the best member.
-- The divisions in floating point are parameters: `average` is llround of a sum of latencies over their
-- number, `threshold` llround of a ratio times a latency, and `probe_period` the time-out for the ring
-- members.
pub mod Steps
pub mod Handlers
pub mod Extremes
pub mod Diagram
pub mod Selection
use lib_meridian.Prelude.{
  ℕ, ◌-◌, ◌*◌, ◌%◌, suc, zero, Bool, true, false, ◌==◌, ◌&&◌, ◌||◌, not, nat_eq, List, [], ◌∷◌,
  ◌++◌, Option, none, some, if◌then◌else◌, length, map, leb, ltb, ◌+◌, ℤ, pos, negsuc,
}
use lib_meridian.Node.{NodeIdent, NodeIdentRendv, NodeIdentLat, node_eq, node_key}
use lib_meridian.Host.{Host}
use lib_meridian.OrdMap.{OrdMap, find, insert}
use lib_meridian.RealPacket.{Status, success, failure, new_real_packet, without_rendv}
use lib_meridian.BufferWrapper.{push_back}
use lib_meridian.Timeval.{Timeval}
use lib_meridian.RingSet.Queries.{NodeSet, has, set_insert, insert_all}
use lib_meridian.Queries.{
  Kind, closest_kind, Action, add_out_packet, probe, req_probe, notify_q_latency, insert_node,
  erase_node, cache_insert, add_node, run_once, update_timeout, erase_connection, Outcome, done,
  refuse, new_packet, send, send_or_refuse, main_part, rendv_part, with_latency, node_of, zero_node,
  notify_all, max_rtt_us, elapsed_us, compute_timeout,
}

-- HandleClosest_SM.
pub data Phase : Type 0 where
  hc_init hc_wait_for_direct_ping hc_indirect_ping hc_wait_for_fin : Phase

pub record HandleClosest : Type 0 where
  pub kind : Kind
  pub qid : ℕ
  pub beta_numer : ℕ
  pub beta_denom : ℕ
  pub average_lat_us : ℕ
  pub src_node : NodeIdentRendv
  pub finished : Bool
  pub selected_member : NodeIdent
  pub timeout_tv : Timeval
  pub remote_nodes : NodeSet
  pub ring_members : OrdMap NodeIdent NodeIdent
  pub remote_latencies : OrdMap NodeIdent ℕ
  pub state_machine : Phase
  pub ring_latencies : OrdMap NodeIdent (OrdMap NodeIdent ℕ)

-- averageLatUS stands as `unset` until the direct measurements are in.
unfoldable pub new_query :
    (Timeval → Timeval → Timeval)
    → Timeval
    → ℕ
    → Kind
    → ℕ
    → ℕ
    → ℕ
    → NodeIdentRendv
    → List NodeIdent
    → HandleClosest
new_query timeradd now unset kind id in_beta_numer in_beta_denom in_src_node in_remote = record {
  kind = kind;
  qid = id;
  beta_numer = in_beta_numer;
  beta_denom = in_beta_denom;
  average_lat_us = unset;
  src_node = in_src_node;
  finished = false;
  selected_member = zero_node;
  timeout_tv = compute_timeout timeradd now max_rtt_us;
  remote_nodes = insert_all in_remote [];
  ring_members = [];
  remote_latencies = [];
  state_machine = hc_init;
  ring_latencies = [];
}

-- betaRatio as the queries use it: 0/0 passes both tests, and an illegal ratio is replaced by a half.
pub data Ratio : Type 0 where
  not_a_number : Ratio
  rational : ℕ → ℕ → Ratio

unfoldable pub beta_ratio : ℕ → ℕ → Ratio
beta_ratio numer denom =
    if denom == 0
    then (if numer == 0 then not_a_number else rational 1 2)
    else if numer == 0 || leb denom numer
    then rational 1 2
    else rational numer denom

abbrev pub uint_max : ℕ
uint_max = 4294967295

-- The conversion of a rounded value to u_int.
unfoldable pub to_uint : ℤ → ℕ
to_uint (negsuc n) = 0
to_uint (pos n) = if ltb uint_max n then uint_max else n

unfoldable pub total_value : OrdMap NodeIdent ℕ → ℕ
total_value [] = 0
total_value ((n, l) ∷ m) = l + total_value m

unfoldable pub max_from : ℕ → OrdMap NodeIdent ℕ → ℕ
max_from max_value [] = max_value
max_from max_value ((n, l) ∷ m) = max_from (if ltb max_value l then l else max_value) m

unfoldable pub min_from : ℕ → OrdMap NodeIdent ℕ → ℕ
min_from min_value [] = min_value
min_from min_value ((n, l) ∷ m) = min_from (if ltb l min_value then l else min_value) m

pub record Numbers : Type 0 where
  pub average : ℕ → ℕ → ℤ
  pub threshold : Ratio → ℕ → ℤ
  pub probe_period : Ratio → ℕ → ℕ

module _ (num : Numbers) where
  -- The maximum, the minimum and the average; `none` is the answer -1.
  unfoldable pub get_max_and_min_and_average : OrdMap NodeIdent ℕ → Option (ℕ × ℕ × ℕ)
  get_max_and_min_and_average [] = none
  get_max_and_min_and_average ((n, l) ∷ []) = some (l, l, l)
  get_max_and_min_and_average (a ∷ b ∷ m) = some (
    max_from 0 (a ∷ b ∷ m),
    min_from uint_max (a ∷ b ∷ m),
    to_uint (num.average (total_value (a ∷ b ∷ m)) (length (a ∷ b ∷ m))),
  )

  unfoldable pub get_max_and_average : OrdMap NodeIdent ℕ → Option (ℕ × ℕ)
  get_max_and_average [] = none
  get_max_and_average ((n, l) ∷ []) = some (l, l)
  get_max_and_average (a ∷ b ∷ m) =
      some (
        max_from 0 (a ∷ b ∷ m),
        to_uint (num.average (total_value (a ∷ b ∷ m)) (length (a ∷ b ∷ m))),
      )

-- What a handler takes from the process: the machine, the time, the rendezvous node of this node, the
-- floating-point arithmetic, and fillVector of the rings, where `none` is an assert of it.
pub record Env : Type 0 where
  pub host : Host
  pub timeradd : Timeval → Timeval → Timeval
  pub now : Timeval
  pub rendv : NodeIdent
  pub num : Numbers
  pub fill_vector : ℕ → ℕ → Ratio → OrdMap NodeIdent NodeIdent → Option (OrdMap NodeIdent NodeIdent)
