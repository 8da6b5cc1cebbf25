-- ===== src/Queries/ReqProbe.antt =====
-- class ReqProbeGeneric of Query.h and Query.cpp with its subclasses: another node is asked to measure
-- the latencies to a set of nodes.
use lib_meridian.Prelude.{
  ℕ, ◌*◌, Bool, true, false, ◌==◌, not, nat_eq, List, [], ◌∷◌, Option, none, some, if◌then◌else◌,
  length,
}
use lib_meridian.Node.{NodeIdent, NodeIdentRendv, NodeIdentLat, node_eq, node_key}
use lib_meridian.Host.{Host}
use lib_meridian.BufferWrapper.{push_back}
use lib_meridian.Timeval.{Timeval}
use lib_meridian.RingSet.Queries.{NodeSet, insert_all}
use lib_meridian.Queries.{
  Kind, measure_kind, erase_node, Outcome, done, refuse, new_packet, send_or_refuse, main_part,
  with_latency, notify_all, max_rtt_us, compute_timeout,
}
use lib_meridian.Packet.{ret_ping_req}
use lib_meridian.Packets.RetPing.{RetPing}
use lib_meridian.Packets.RetPing
use lib_meridian.Packets.ReqGeneric.{ReqGeneric}
use lib_meridian.Packets.ReqGeneric

pub record ReqProbe : Type 0 where
  pub kind : Kind
  pub qid : ℕ
  pub src_node : NodeIdentRendv
  pub remote_nodes : NodeSet
  pub finished : Bool
  pub timeout_tv : Timeval
  pub subscribers : List ℕ

unfoldable pub new_query :
    (Timeval → Timeval → Timeval) → Timeval → ℕ → Kind → NodeIdentRendv → List NodeIdent → ReqProbe
new_query timeradd now id kind in_src_node in_remote = record {
  kind = kind;
  qid = id;
  src_node = in_src_node;
  remote_nodes = insert_all in_remote [];
  finished = false;
  timeout_tv = compute_timeout timeradd now (2 * max_rtt_us);
  subscribers = [];
}

unfoldable pub add_targets : NodeSet → ReqGeneric → ReqGeneric
add_targets [] r = r
add_targets ((n, _) ∷ ns) r = add_targets ns (ReqGeneric.add_target n r)

unfoldable pub request : NodeIdent → ReqProbe → ReqGeneric
request rendv q = add_targets q.remote_nodes (record {
  kind = measure_kind q.kind;
  req_id = q.qid;
  rendv_addr = rendv.addr;
  rendv_port = rendv.port;
  targets = [];
})

unfoldable pub init : Host → NodeIdent → ReqProbe → Outcome ReqProbe
init h rendv q =
    send_or_refuse q (ReqGeneric.create_real_packet h (request rendv q) (new_packet q.src_node))

-- The subscribers hear of the source first, and then of what it measured.
unfoldable pub tell : List NodeIdentLat → ReqProbe → Outcome ReqProbe
tell nodes q =
    done (record q { finished = true })
      (notify_all q.subscribers (with_latency (main_part q.src_node) 0 ∷ nodes))

-- `none` is the read of the first byte of an empty packet.
unfoldable pub handle_event : Host → NodeIdent → List ℕ → ReqProbe → Option (Outcome ReqProbe)
handle_event h in_remote [] q = none
handle_event h in_remote (first ∷ in_packet) q =
    if not (first == ret_ping_req)
    then some (refuse q)
    else if not (in_remote == main_part q.src_node)
    then some (refuse q)
    else (elim (RetPing.parse h (first ∷ in_packet)) [
      | none ↦ some (refuse q)
      | some r ↦ some (if length r.nodes == length q.remote_nodes then tell r.nodes q else refuse q)
    ])

unfoldable pub handle_timeout : ReqProbe → Outcome ReqProbe
handle_timeout q = done (record q { finished = true }) (erase_node (main_part q.src_node) ∷ [])

unfoldable pub subscribe_latency : ℕ → ReqProbe → ReqProbe
subscribe_latency in_qid q = record q { subscribers = push_back q.subscribers in_qid }
