-- ===== src/Queries/AddNodeQuery.antt =====
-- class AddNodeQuery of Query.h and Query.cpp.
use lib_meridian.Prelude.{
  ℕ, Bool, true, false, ◌==◌, not, nat_eq, List, [], ◌∷◌, ◌++◌, Option, none, some, if◌then◌else◌,
}
use lib_meridian.Node.{NodeIdent, NodeIdentRendv, NodeIdentLat, node_eq}
use lib_meridian.Host.{Host}
use lib_meridian.BufferWrapper.{push_back}
use lib_meridian.Packet.{pong}
use lib_meridian.Packets.Control.{ping_packet}
use lib_meridian.Packets.Control
use lib_meridian.Timeval.{Timeval}
use lib_meridian.Queries.{
  ping_kind, req_probe, insert_node, erase_node, cache_insert, Outcome, done, refuse, new_packet,
  send_or_refuse, main_part, rendv_part, with_latency, node_of, zero_node, notify_all, max_rtt_us,
  elapsed_us, compute_timeout,
}

pub record AddNodeQuery : Type 0 where
  pub qid : ℕ
  pub remote_node : NodeIdentRendv
  pub finished : Bool
  pub start_time : Timeval
  pub timeout_tv : Timeval
  pub subscribers : List ℕ

-- The time stands as `unset` until init sets it.
unfoldable pub new_query :
    (Timeval → Timeval → Timeval) → Timeval → Timeval → ℕ → NodeIdentRendv → AddNodeQuery
new_query timeradd now unset id in_remote = record {
  qid = id;
  remote_node = in_remote;
  finished = false;
  start_time = unset;
  timeout_tv = compute_timeout timeradd now max_rtt_us;
  subscribers = [];
}

abbrev pub finish : AddNodeQuery → AddNodeQuery
finish q = record q { finished = true }

-- The node goes into the rings, the subscribers hear of it, and the cache keeps its latency.
unfoldable pub measured : ℕ → AddNodeQuery → Outcome AddNodeQuery
measured latency_us q =
    let main = main_part q.remote_node in
    done (finish q) (
      insert_node main latency_us (rendv_part q.remote_node)
      ∷ (notify_all q.subscribers (with_latency main latency_us ∷ [])
          ++ (cache_insert ping_kind main latency_us ∷ [])))

unfoldable pub handle_latency : List NodeIdentLat → AddNodeQuery → Outcome AddNodeQuery
handle_latency (source ∷ target ∷ []) q =
    if node_of source == main_part q.remote_node then measured target.latency_us q else refuse q
handle_latency _ q = refuse q

-- `none` is the read of the first byte of an empty packet.
unfoldable pub handle_event :
    Timeval → NodeIdent → List ℕ → AddNodeQuery → Option (Outcome AddNodeQuery)
handle_event cur_time in_remote [] q = none
handle_event cur_time in_remote (first ∷ in_packet) q =
    if not (first == pong)
    then some (refuse q)
    else if not (in_remote == main_part q.remote_node)
    then some (refuse q)
    else some (measured (elapsed_us cur_time q.start_time) q)

unfoldable pub handle_timeout : AddNodeQuery → Outcome AddNodeQuery
handle_timeout q = done (finish q) (erase_node (main_part q.remote_node) ∷ [])

-- A node behind a firewall is asked to measure us instead, unless we are behind one too.
unfoldable pub init : Host → Timeval → NodeIdent → AddNodeQuery → Outcome AddNodeQuery
init h now rendv_info q =
    let started : AddNodeQuery = record q { start_time = now } in
    if rendv_part q.remote_node == zero_node
    then send_or_refuse started
        (Control.create_real_packet h ping_packet q.qid (new_packet q.remote_node))
    else if rendv_info == zero_node
    then done started (req_probe ping_kind q.remote_node (zero_node ∷ []) ∷ [])
    else done started []

unfoldable pub subscribe_latency : ℕ → AddNodeQuery → AddNodeQuery
subscribe_latency in_qid q = record q { subscribers = push_back q.subscribers in_qid }
