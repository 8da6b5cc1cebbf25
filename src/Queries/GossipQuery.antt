-- ===== src/Queries/GossipQuery.antt =====
-- class GossipQuery of Query.h and Query.cpp.
use lib_meridian.Prelude.{
  ℕ, Bool, true, false, ◌==◌, ◌||◌, not, nat_eq, List, [], ◌∷◌, if◌then◌else◌,
}
use lib_meridian.Node.{NodeIdent, NodeIdentRendv, NodeIdentLat, node_eq}
use lib_meridian.Host.{Host}
use lib_meridian.RealPacket.{Status, success, failure}
use lib_meridian.Packets.GossipPacketGeneric.{GossipPacketGeneric, gossip_push}
use lib_meridian.Packets.GossipPacketGeneric
use lib_meridian.Timeval.{Timeval}
use lib_meridian.Queries.{
  add_node, Outcome, done, refuse, new_packet, send, main_part, node_of, max_rtt_us,
  compute_timeout,
}

pub record GossipQuery : Type 0 where
  pub qid : ℕ
  pub remote_node : NodeIdentRendv
  pub finished : Bool
  pub start_time : Timeval
  pub timeout_tv : Timeval

unfoldable pub new_query :
    (Timeval → Timeval → Timeval) → Timeval → Timeval → ℕ → NodeIdentRendv → GossipQuery
new_query timeradd now unset id in_remote = record {
  qid = id;
  remote_node = in_remote;
  finished = false;
  start_time = unset;
  timeout_tv = compute_timeout timeradd now max_rtt_us;
}

-- `inserted` is the answer of insertNewQuery for the new AddNodeQuery.
unfoldable pub init : Status → Timeval → GossipQuery → Outcome GossipQuery
init success now q = done (record q { start_time = now }) (add_node q.remote_node ∷ [])
init failure now q = refuse (record q { start_time = now })

unfoldable pub handle_timeout : GossipQuery → Outcome GossipQuery
handle_timeout q = done (record q { finished = true }) []

-- The random nodes but the target itself.
unfoldable pub fill_gossip_packet :
    List NodeIdentRendv → NodeIdentRendv → GossipPacketGeneric → GossipPacketGeneric
fill_gossip_packet [] in_target in_packet = in_packet
fill_gossip_packet (n ∷ ns) in_target in_packet = fill_gossip_packet ns in_target (
    if not (n.addr == in_target.addr) || not (n.port == in_target.port)
    then GossipPacketGeneric.add_node n.addr n.port n.addr_rendv n.port_rendv in_packet
    else in_packet)

unfoldable pub gossip_packet : NodeIdent → List NodeIdentRendv → GossipQuery → GossipPacketGeneric
gossip_packet rendv random_nodes q = fill_gossip_packet random_nodes q.remote_node (record {
  kind = gossip_push;
  req_id = q.qid;
  rendv_addr = rendv.addr;
  rendv_port = rendv.port;
  targets = [];
})

unfoldable pub handle_latency :
    Host → NodeIdent → List NodeIdentRendv → List NodeIdentLat → GossipQuery → Outcome GossipQuery
handle_latency h rendv random_nodes (in_remote ∷ []) q =
    if node_of in_remote == main_part q.remote_node
    then done (record q { finished = true })
        (send (
          GossipPacketGeneric.create_real_packet h (gossip_packet rendv random_nodes q)
            (new_packet q.remote_node)))
    else refuse q
handle_latency h rendv random_nodes _ q = refuse q
