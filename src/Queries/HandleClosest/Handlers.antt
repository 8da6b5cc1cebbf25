-- ===== src/Queries/HandleClosest/Handlers.antt =====
-- handleLatency, handleTimeout and handleEvent of HandleClosestGeneric.
use lib_meridian.Prelude.{
  ℕ, Bool, true, false, ◌==◌, ◌||◌, not, nat_eq, List, [], ◌∷◌, Option, none, some, if◌then◌else◌,
  length,
}
use lib_meridian.Node.{NodeIdent, NodeIdentLat, node_eq, node_key}
use lib_meridian.OrdMap.{OrdMap, insert}
use lib_meridian.RealPacket.{Status, success, failure, without_rendv}
use lib_meridian.RingSet.Queries.{NodeSet, has}
use lib_meridian.Queries.{closest_kind, Outcome, done, refuse, new_packet, send, node_of, zero_node}
use lib_meridian.Packet.{parse_header, ret_response, ret_error, ret_info}
use lib_meridian.BufferWrapper.{new_buffer_wrapper}
use lib_meridian.Packets.ReqClosestGeneric.{type_byte}
use lib_meridian.Packets.RetResponse.{RetResponse, new_ret_response}
use lib_meridian.Packets.RetResponse
use lib_meridian.Packets.RetError.{RetError}
use lib_meridian.Packets.RetError
use lib_meridian.Packets.RetInfo.{RetInfo}
use lib_meridian.Packets.RetInfo
use lib_meridian.Queries.HandleClosest.{
  Phase, hc_init, hc_wait_for_direct_ping, hc_indirect_ping, hc_wait_for_fin, HandleClosest, Env,
}
use lib_meridian.Queries.HandleClosest.Steps.{
  finish, complete, respond_to, respond_error, handle_forward, send_req_probes,
}

unfoldable pub store_latency : NodeIdent → ℕ → HandleClosest → HandleClosest
store_latency n l q = record q { remote_latencies = insert n l q.remote_latencies }

-- HC_WAIT_FOR_DIRECT_PING, with results to come and one result in the notice.
unfoldable pub direct_one : Env → NodeIdentLat → HandleClosest → Option (Outcome HandleClosest)
direct_one e in_remote q =
    if not (has (node_of in_remote) q.remote_nodes) || has (node_of in_remote) q.remote_latencies
    then some (refuse q)
    else (let stored = store_latency (node_of in_remote) in_remote.latency_us q in
        if complete stored then send_req_probes e stored else some (done stored []))

unfoldable pub direct : Env → List NodeIdentLat → HandleClosest → Option (Outcome HandleClosest)
direct e in_remote_nodes q = if complete q then send_req_probes e q else (elim in_remote_nodes [
  | [] ↦ some (refuse q)
  | in_remote ∷ [] ↦ direct_one e in_remote q
  | _ ∷ _ ∷ _ ↦ some (refuse q)
])

-- tmpIdentMap; `none` is a result for a node that is no target.
unfoldable pub collect :
    NodeSet → List NodeIdentLat → OrdMap NodeIdent ℕ → Option (OrdMap NodeIdent ℕ)
collect remote_nodes [] tmp_map = some tmp_map
collect remote_nodes (n ∷ ns) tmp_map =
    if has (node_of n) remote_nodes
    then collect remote_nodes ns (insert (node_of n) n.latency_us tmp_map)
    else none

unfoldable pub store_ring_latencies : NodeIdent → OrdMap NodeIdent ℕ → HandleClosest → HandleClosest
store_ring_latencies n latencies q = record q {
  ring_latencies = insert n latencies q.ring_latencies;
}

-- HC_INDIRECT_PING, with the results of a ring member.
unfoldable pub indirect_one :
    Env → NodeIdent → List NodeIdentLat → HandleClosest → Option (Outcome HandleClosest)
indirect_one e cur_node results q = elim (collect q.remote_nodes results []) [
  | none ↦ some (refuse q)
  | some tmp_map ↦
      if not (length q.remote_nodes == length tmp_map)
      then some (refuse q)
      else (let stored = store_ring_latencies cur_node tmp_map q in
          if length stored.ring_members == length stored.ring_latencies
          then handle_forward e stored
          else some (done stored []))
]

unfoldable pub indirect : Env → List NodeIdentLat → HandleClosest → Option (Outcome HandleClosest)
indirect e [] q = some (refuse q)
indirect e (first ∷ results) q =
    if not (has (node_of first) q.ring_members) || has (node_of first) q.ring_latencies
    then some (refuse q)
    else indirect_one e (node_of first) results q

-- The switch of handleLatency.
unfoldable pub latency_in :
    Env → List NodeIdentLat → HandleClosest → Phase → Option (Outcome HandleClosest)
latency_in e in_remote_nodes q hc_init = some (done q [])
latency_in e in_remote_nodes q hc_wait_for_direct_ping = direct e in_remote_nodes q
latency_in e in_remote_nodes q hc_indirect_ping = indirect e in_remote_nodes q
latency_in e in_remote_nodes q hc_wait_for_fin = some (done q [])

unfoldable pub handle_latency :
    Env → List NodeIdentLat → HandleClosest → Option (Outcome HandleClosest)
handle_latency e in_remote_nodes q = latency_in e in_remote_nodes q q.state_machine

-- The switch of handleTimeout.
unfoldable pub timeout_in : Env → HandleClosest → Phase → Option (Outcome HandleClosest)
timeout_in e q hc_init = some (done (finish q) [])
timeout_in e q hc_wait_for_direct_ping = some (respond_error e q)
timeout_in e q hc_indirect_ping = handle_forward e q
timeout_in e q hc_wait_for_fin = some (respond_error e q)

unfoldable pub handle_timeout : Env → HandleClosest → Option (Outcome HandleClosest)
handle_timeout e q = timeout_in e q q.state_machine

-- A packet of the selected member goes on to the source.
unfoldable pub pass_response : Env → NodeIdent → List ℕ → HandleClosest → Outcome HandleClosest
pass_response e in_remote packet q = elim (RetResponse.parse e.host in_remote packet) [
  | none ↦ refuse q
  | some r ↦
      done (finish q) (send (RetResponse.create_real_packet e.host r (new_packet q.src_node)))
]

unfoldable pub pass_error : Env → List ℕ → HandleClosest → Outcome HandleClosest
pass_error e packet q = elim (RetError.parse e.host packet) [
  | none ↦ refuse q
  | some r ↦ done (finish q) (send (RetError.create_real_packet e.host r (new_packet q.src_node)))
]

unfoldable pub pass_info : Env → NodeIdent → List ℕ → HandleClosest → Outcome HandleClosest
pass_info e in_remote packet q = elim (RetInfo.parse e.host in_remote packet) [
  | none ↦ refuse q
  | some r ↦ done q (send (RetInfo.create_real_packet e.host r (new_packet q.src_node)))
]

unfoldable pub pass_on : Env → ℕ → NodeIdent → List ℕ → HandleClosest → Outcome HandleClosest
pass_on e query_type in_remote packet q =
    if query_type == ret_response
    then pass_response e in_remote packet q
    else if query_type == ret_error
    then pass_error e packet q
    else if query_type == ret_info
    then pass_info e in_remote packet q
    else done q []

-- HC_WAIT_FOR_FIN: a search that comes back is answered with this node, without an end of the search here.
unfoldable pub fin_event : Env → ℕ → NodeIdent → List ℕ → HandleClosest → Outcome HandleClosest
fin_event e query_type in_remote packet q =
    if query_type == type_byte (closest_kind q.kind)
    then done q (respond_to e (without_rendv in_remote) zero_node q.remote_latencies q)
    else if in_remote == q.selected_member
    then pass_on e query_type in_remote packet q
    else done q []

-- `none` is the assert on a packet without a header.
unfoldable pub parsed_event :
    Env → ℕ × ℕ × Status → NodeIdent → List ℕ → HandleClosest → Option (Outcome HandleClosest)
parsed_event e (query_type, query_id, failure) in_remote packet q = none
parsed_event e (query_type, query_id, success) in_remote packet q =
    some (fin_event e query_type in_remote packet q)

abbrev pub is_fin : Phase → Bool
is_fin hc_wait_for_fin = true
is_fin _ = false

unfoldable pub handle_event :
    Env → NodeIdent → List ℕ → HandleClosest → Option (Outcome HandleClosest)
handle_event e in_remote packet q =
    if is_fin q.state_machine
    then parsed_event e (parse_header e.host (new_buffer_wrapper packet)).0 in_remote packet q
    else some (done q [])
