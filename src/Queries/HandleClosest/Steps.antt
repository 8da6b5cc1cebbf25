-- ===== src/Queries/HandleClosest/Steps.antt =====
-- The handlers of HandleClosestGeneric.
use lib_meridian.Prelude.{
  ℕ, Bool, true, false, ◌==◌, ◌||◌, not, nat_eq, List, [], ◌∷◌, ◌++◌, Option, none, some,
  if◌then◌else◌, length, map, ltb,
}
use lib_meridian.Node.{NodeIdent, NodeIdentRendv, node_eq, node_key}
use lib_meridian.OrdMap.{OrdMap, find}
use lib_meridian.RealPacket.{RealPacket, Status, success, failure}
use lib_meridian.RingSet.Queries.{NodeSet}
use lib_meridian.Queries.{
  Kind, closest_kind, Action, add_out_packet, req_probe, notify_q_latency, Outcome, done, refuse,
  new_packet, send, look_up, zero_node, max_rtt_us, compute_timeout,
}
use lib_meridian.Packets.ReqClosestGeneric.{ReqClosestGeneric, type_byte}
use lib_meridian.Packets.ReqClosestGeneric
use lib_meridian.Packets.RetResponse.{RetResponse, new_ret_response}
use lib_meridian.Packets.RetResponse
use lib_meridian.Packets.RetError.{RetError}
use lib_meridian.Packets.RetError
use lib_meridian.Packets.RetInfo.{RetInfo}
use lib_meridian.Packets.RetInfo
use lib_meridian.Queries.HandleClosest.{
  Phase, hc_wait_for_direct_ping, hc_indirect_ping, hc_wait_for_fin, HandleClosest, beta_ratio,
  uint_max, to_uint, Numbers, get_max_and_min_and_average, get_max_and_average, Env,
}

abbrev pub finish : HandleClosest → HandleClosest
finish q = record q { finished = true }

-- `remoteLatencies.size() == remoteNodes.size()`.
abbrev pub complete : HandleClosest → Bool
complete q = length q.remote_latencies == length q.remote_nodes

abbrev pub respond_to :
    Env → NodeIdentRendv → NodeIdent → OrdMap NodeIdent ℕ → HandleClosest → List Action
respond_to e dest n latencies q = send (
    RetResponse.create_real_packet e.host (new_ret_response q.qid n.addr n.port latencies)
      (new_packet dest))

-- The answer to the source, with which the search ends here.
unfoldable pub respond :
    Env → NodeIdent → OrdMap NodeIdent ℕ → HandleClosest → Outcome HandleClosest
respond e n latencies q = done (finish q) (respond_to e q.src_node n latencies q)

unfoldable pub respond_error : Env → HandleClosest → Outcome HandleClosest
respond_error e q =
    done (finish q) (
      send (RetError.create_real_packet e.host (record { req_id = q.qid }) (new_packet q.src_node)))

unfoldable pub init : Env → (NodeIdent → Option ℕ) → HandleClosest → Outcome HandleClosest
init e get_latency q =
    let (latencies, probes) = look_up q.kind get_latency q.remote_nodes q.remote_latencies in
    let r : HandleClosest = record q {
      remote_latencies = latencies;
      state_machine = hc_wait_for_direct_ping;
    } in
    let info = send (
      RetInfo.create_real_packet e.host (record { req_id = q.qid; addr = 0; port = 0 })
        (new_packet q.src_node)) in
    done r (probes ++ info ++ (if complete r then notify_q_latency q.qid [] ∷ [] else []))

-- The loop of handleForward: the lowest average so far and its ring member.
unfoldable pub lowest :
    Numbers → ℕ × NodeIdent → OrdMap NodeIdent (OrdMap NodeIdent ℕ) → ℕ × NodeIdent
lowest num best [] = best
lowest num best ((n, latencies) ∷ m) = elim (get_max_and_average num latencies) [
  | none ↦ lowest num best m
  | some (_, avg) ↦ lowest num (if ltb avg best.0 then (avg, n) else best) m
]

unfoldable pub add_targets : NodeSet → ReqClosestGeneric → ReqClosestGeneric
add_targets [] r = r
add_targets ((n, _) ∷ ns) r = add_targets ns (ReqClosestGeneric.add_target n r)

unfoldable pub request : Env → HandleClosest → ReqClosestGeneric
request e q = add_targets q.remote_nodes (record {
  kind = closest_kind q.kind;
  req_id = q.qid;
  rendv_addr = e.rendv.addr;
  rendv_port = e.rendv.port;
  beta_num = q.beta_numer;
  beta_den = q.beta_denom;
  targets = [];
})

abbrev pub with_rendv : NodeIdent → NodeIdent → NodeIdentRendv
with_rendv n rendv = record {
  addr = n.addr;
  port = n.port;
  addr_rendv = rendv.addr;
  port_rendv = rendv.port;
}

-- The ring member with its rendezvous node.
abbrev pub member_rendv : HandleClosest → NodeIdent → NodeIdentRendv
member_rendv q n = elim (find n q.ring_members) [
  | none ↦ with_rendv n zero_node
  | some rendv ↦ with_rendv n rendv
]

unfoldable pub sent_forward :
    Env → NodeIdent → Status × RealPacket → HandleClosest → Outcome HandleClosest
sent_forward e closest_member (failure, p) q = done (finish q) []
sent_forward e closest_member (success, p) q =
    done
      (record q {
        selected_member = closest_member;
        timeout_tv = compute_timeout e.timeradd e.now max_rtt_us;
        state_machine = hc_wait_for_fin;
      })
      (add_out_packet p ∷ [])

unfoldable pub forward : Env → NodeIdent → HandleClosest → Outcome HandleClosest
forward e closest_member q =
    sent_forward e closest_member
      (ReqClosestGeneric.create_real_packet e.host (request e q)
        (new_packet (member_rendv q closest_member)))
      q

-- Neither the ring members nor this node are close enough: the closest that is known is the answer.
-- `none` is the assert on a member without latencies.
unfoldable pub respond_best : Env → ℕ → NodeIdent → HandleClosest → Option (Outcome HandleClosest)
respond_best e lowest_lat_us closest_member q =
    if ltb lowest_lat_us q.average_lat_us
    then (elim (find closest_member q.ring_latencies) [
      | none ↦ none
      | some latencies ↦ some (respond e closest_member latencies q)
    ])
    else some (respond e zero_node q.remote_latencies q)

abbrev pub latency_threshold : Env → HandleClosest → ℕ
latency_threshold e q =
    to_uint (e.num.threshold (beta_ratio q.beta_numer q.beta_denom) q.average_lat_us)

unfoldable pub handle_forward : Env → HandleClosest → Option (Outcome HandleClosest)
handle_forward e q =
    let (lowest_lat_us, closest_member) = lowest e.num (uint_max, zero_node) q.ring_latencies in
    if lowest_lat_us == 0 || ltb (latency_threshold e q) lowest_lat_us
    then respond_best e lowest_lat_us closest_member q
    else some (forward e closest_member q)

unfoldable pub req_probes : Kind → List NodeIdent → OrdMap NodeIdent NodeIdent → List Action
req_probes kind targets [] = []
req_probes kind targets ((n, rendv) ∷ m) =
    req_probe kind (with_rendv n rendv) targets ∷ req_probes kind targets m

abbrev pub nodes_of : NodeSet → List NodeIdent
nodes_of m = map (λ x. x.0) m

-- The ring members are asked, or there are none and this node is the answer.
unfoldable pub ask_members :
    Env → OrdMap NodeIdent NodeIdent → HandleClosest → Outcome HandleClosest
ask_members e members q =
    let r : HandleClosest = record q { ring_members = members } in
    if length members == 0
    then respond e zero_node q.remote_latencies r
    else done r (req_probes q.kind (nodes_of q.remote_nodes) members)

abbrev pub in_indirect_ping : Env → ℕ → ℕ → HandleClosest → HandleClosest
in_indirect_ping e largest_lat_us avg q = record q {
  average_lat_us = avg;
  timeout_tv =
      compute_timeout e.timeradd e.now
        (e.num.probe_period (beta_ratio q.beta_numer q.beta_denom) largest_lat_us);
  state_machine = hc_indirect_ping;
}

abbrev pub is_direct : Phase → Bool
is_direct hc_wait_for_direct_ping = true
is_direct _ = false

-- The direct measurements are in, with their maximum, minimum and average.
unfoldable pub measured : Env → HandleClosest → Option (ℕ × ℕ × ℕ) → Option (Outcome HandleClosest)
measured e q none = some (refuse (finish q))
measured e q (some (largest_lat_us, smallest_lat_us, avg)) =
    let r = in_indirect_ping e largest_lat_us avg q in
    if avg == 0
    then some (respond e zero_node r.remote_latencies r)
    else (elim (e.fill_vector smallest_lat_us largest_lat_us (beta_ratio q.beta_numer q.beta_denom)
        r.ring_members) [ none ↦ none | some members ↦ some (ask_members e members r) ])

unfoldable pub send_req_probes : Env → HandleClosest → Option (Outcome HandleClosest)
send_req_probes e q =
    if not (is_direct q.state_machine) || not (complete q)
    then some (refuse q)
    else measured e q (get_max_and_min_and_average e.num q.remote_latencies)
