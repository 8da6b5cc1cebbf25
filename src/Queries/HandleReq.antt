-- ===== src/Queries/HandleReq.antt =====
-- class HandleReqGeneric of Query.h and Query.cpp with its subclasses: the latencies to a set of nodes,
-- measured for another node and sent back in one packet.
pub mod Learning
pub mod Collecting
use lib_meridian.Prelude.{
  ℕ, ◌-◌, ◌*◌, ◌%◌, suc, zero, Bool, true, false, ◌==◌, ◌&&◌, ◌||◌, not, nat_eq, List, [], ◌∷◌,
  ◌++◌, Option, none, some, if◌then◌else◌, length, map,
}
use lib_meridian.Node.{NodeIdent, NodeIdentRendv, NodeIdentLat, node_eq, node_key}
use lib_meridian.Host.{Host}
use lib_meridian.OrdMap.{OrdMap, find, insert}
use lib_meridian.RealPacket.{Status, success, failure, new_real_packet, without_rendv}
use lib_meridian.BufferWrapper.{push_back}
use lib_meridian.Timeval.{Timeval}
use lib_meridian.RingSet.Queries.{NodeSet, has, set_insert, insert_all}
use lib_meridian.Queries.{
  Kind, tcp, dns, ping_kind, icmp, measure_kind, Action, add_out_packet, probe, req_probe,
  notify_q_latency, insert_node, erase_node, cache_insert, add_node, run_once, update_timeout,
  erase_connection, Outcome, done, refuse, new_packet, send, send_or_refuse, main_part, rendv_part,
  with_latency, node_of, zero_node, notify_all, look_up, max_rtt_us, elapsed_us, compute_timeout,
}
use lib_meridian.Packets.RetPing.{RetPing}
use lib_meridian.Packets.RetPing

pub record HandleReq : Type 0 where
  pub kind : Kind
  pub qid : ℕ
  pub src_node : NodeIdentRendv
  pub finished : Bool
  pub timeout_tv : Timeval
  pub remote_nodes : NodeSet
  pub remote_latencies : OrdMap NodeIdent ℕ

-- The node 0 and 0 stands for the source itself.
unfoldable pub or_source : NodeIdentRendv → List NodeIdent → List NodeIdent
or_source src [] = []
or_source src (n ∷ ns) =
    (if n.addr == 0 && n.port == 0 then main_part src else n) ∷ or_source src ns

unfoldable pub new_query :
    (Timeval → Timeval → Timeval) → Timeval → Kind → ℕ → NodeIdentRendv → List NodeIdent → HandleReq
new_query timeradd now kind id in_src_node in_remote = record {
  kind = kind;
  qid = id;
  src_node = in_src_node;
  finished = false;
  timeout_tv = compute_timeout timeradd now max_rtt_us;
  remote_nodes = insert_all (or_source in_src_node in_remote) [];
  remote_latencies = [];
}

-- The loop over the latencies.
unfoldable pub add_nodes : OrdMap NodeIdent ℕ → RetPing → RetPing
add_nodes [] r = r
add_nodes ((n, l) ∷ m) r = add_nodes m (RetPing.add_node n l r)

unfoldable pub ret_ping : HandleReq → RetPing
ret_ping q = add_nodes q.remote_latencies (record { req_id = q.qid; nodes = [] })

unfoldable pub send_return_packet : Host → HandleReq → Outcome HandleReq
send_return_packet h q =
    send_or_refuse q (RetPing.create_real_packet h (ret_ping q) (new_packet q.src_node))

-- `remoteLatencies.size() == remoteNodes.size()`.
abbrev pub complete : HandleReq → Bool
complete q = length q.remote_latencies == length q.remote_nodes

abbrev pub finish : HandleReq → HandleReq
finish q = record q { finished = true }

unfoldable pub store_latency : NodeIdent → ℕ → HandleReq → HandleReq
store_latency n l q = record q { remote_latencies = insert n l q.remote_latencies }

unfoldable pub handle_one : Host → NodeIdentLat → HandleReq → Outcome HandleReq
handle_one h in_remote q =
    if not (has (node_of in_remote) q.remote_nodes) || has (node_of in_remote) q.remote_latencies
    then refuse q
    else (let stored = store_latency (node_of in_remote) in_remote.latency_us q in
        if complete stored then send_return_packet h (finish stored) else done stored [])

unfoldable pub handle_latency : Host → List NodeIdentLat → HandleReq → Outcome HandleReq
handle_latency h in_remote_nodes q =
    if complete q then send_return_packet h (finish q) else (elim in_remote_nodes [
      | [] ↦ refuse q
      | in_remote ∷ [] ↦ handle_one h in_remote q
      | _ ∷ _ ∷ _ ↦ refuse q
    ])

unfoldable pub handle_timeout : Host → HandleReq → Outcome HandleReq
handle_timeout h q = send_return_packet h (finish q)

unfoldable pub init : (NodeIdent → Option ℕ) → HandleReq → Outcome HandleReq
init get_latency q =
    let (latencies, actions) = look_up q.kind get_latency q.remote_nodes q.remote_latencies in
    let r : HandleReq = record q { remote_latencies = latencies } in
    done r (if complete r then actions ++ (notify_q_latency q.qid [] ∷ []) else actions)
