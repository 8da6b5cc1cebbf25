-- ===== src/Queries.antt =====
-- What the queries of Query.h and Query.cpp share: the kinds of measurement, the time-out of a query, and
-- what a handler does outside the query, as a list of actions in the order of the calls.
pub mod AddNodeQuery
pub mod GossipQuery
pub mod QueryScheduler
pub mod ProbeQuery
pub mod HandleReq
pub mod ReqProbe
pub mod HandleClosest
use lib_meridian.Prelude.{
  ℕ, ◌+◌, ◌-◌, ◌*◌, ◌/◌, ◌%◌, Bool, true, false, ◌==◌, ◌&&◌, nat_eq, List, [], ◌∷◌, Option, none,
  some, leb, if◌then◌else◌,
}
use lib_meridian.Node.{NodeIdent, NodeIdentRendv, NodeIdentLat}
use lib_meridian.RealPacket.{
  RealPacket, Status, success, failure, new_real_packet, max_udp_packet_size,
}
use lib_meridian.Node.{node_key}
use lib_meridian.OrdMap.{OrdMap, insert}
use lib_meridian.RingSet.Queries.{NodeSet}
use lib_meridian.Timeval.{Timeval, microseconds}
use lib_meridian.Packets.ReqClosestGeneric.{
  ClosestKind, closest_tcp, closest_merid_ping, closest_dns, closest_icmp,
}
use lib_meridian.Packets.ReqGeneric.{
  MeasureKind, measure_ping, measure_tcp, measure_dns, measure_icmp,
}

-- The suffixes of the subclasses.
pub data Kind : Type 0 where
  tcp dns ping_kind icmp : Kind

abbrev pub closest_kind : Kind → ClosestKind
closest_kind tcp = closest_tcp
closest_kind dns = closest_dns
closest_kind ping_kind = closest_merid_ping
closest_kind icmp = closest_icmp

abbrev pub measure_kind : Kind → MeasureKind
measure_kind tcp = measure_tcp
measure_kind dns = measure_dns
measure_kind ping_kind = measure_ping
measure_kind icmp = measure_icmp

-- The calls that a handler makes.
pub data Action : Type 0 where
  -- addOutPacket.
  add_out_packet : RealPacket → Action
  -- createProbeQuery and insertNewQuery, and if the table takes the query subscribeLatency and init.
  probe : Kind → NodeIdent → Action
  -- createReqProbe and the same calls.
  req_probe : Kind → NodeIdentRendv → List NodeIdent → Action
  -- notifyQLatency.
  notify_q_latency : ℕ → List NodeIdentLat → Action
  -- insertNode and eraseNode of the rings.
  insert_node : NodeIdent → ℕ → NodeIdent → Action
  erase_node : NodeIdent → Action
  -- The insertion into the cache of the kind.
  cache_insert : Kind → NodeIdent → ℕ → Action
  -- A new AddNodeQuery that the table has taken, with subscribeLatency and init.
  add_node : NodeIdentRendv → Action
  -- eraseTCPConnection and eraseDNSConnection.
  erase_connection : Kind → ℕ → Action
  -- runOnce of the object of a scheduler.
  run_once : Action
  -- updateTimeout of the query itself.
  update_timeout : Action

-- What a handler leaves, what it did, and its answer.
pub record Outcome (S : Type 0) : Type 0 where
  pub state : S
  pub actions : List Action
  pub answer : Status

abbrev pub done : {S : Type 0} → S → List Action → Outcome S
done s actions = record { state = s; actions = actions; answer = success }

-- An answer of -1, without calls.
abbrev pub refuse : {S : Type 0} → S → Outcome S
refuse s = record { state = s; actions = []; answer = failure }

abbrev pub new_packet : NodeIdentRendv → RealPacket
new_packet dest = new_real_packet dest max_udp_packet_size

-- A packet that could be created goes out, another one is dropped.
unfoldable pub send : Status × RealPacket → List Action
send (success, p) = add_out_packet p ∷ []
send (failure, p) = []

-- A packet that could be created goes out, and without it the answer is -1.
unfoldable pub send_or_refuse : {S : Type 0} → S → Status × RealPacket → Outcome S
send_or_refuse s (success, p) = done s (add_out_packet p ∷ [])
send_or_refuse s (failure, p) = refuse s

abbrev pub main_part : NodeIdentRendv → NodeIdent
main_part n = record { addr = n.addr; port = n.port }

abbrev pub rendv_part : NodeIdentRendv → NodeIdent
rendv_part n = record { addr = n.addr_rendv; port = n.port_rendv }

abbrev pub with_latency : NodeIdent → ℕ → NodeIdentLat
with_latency n l = record { addr = n.addr; port = n.port; latency_us = l }

abbrev pub node_of : NodeIdentLat → NodeIdent
node_of n = record { addr = n.addr; port = n.port }

abbrev pub zero_node : NodeIdent
zero_node = record { addr = 0; port = 0 }

-- Notices to every subscriber.
unfoldable pub notify_all : List ℕ → List NodeIdentLat → List Action
notify_all [] vect = []
notify_all (s ∷ ss) vect = notify_q_latency s vect ∷ notify_all ss vect

-- MAX_RTT_MS * MICRO_IN_MILLI.
abbrev pub max_rtt_us : ℕ
max_rtt_us = 5000000

-- The loop of init over the targets, where `get_latency` is the cache of the kind: what the cache knows is
-- stored, and the other targets are probed.
unfoldable pub look_up :
    Kind → (NodeIdent → Option ℕ) → NodeSet → OrdMap NodeIdent ℕ → OrdMap NodeIdent ℕ × List Action
look_up kind get_latency [] latencies = (latencies, [])
look_up kind get_latency ((n, _) ∷ ns) latencies = elim (get_latency n) [
  | none ↦
      let (rest, actions) = look_up kind get_latency ns latencies in (rest, probe kind n ∷ actions)
  | some l ↦ look_up kind get_latency ns (insert n l latencies)
]

-- The time since `start`, over u_int: a clock that was set back wraps around.
unfoldable pub elapsed_us : Timeval → Timeval → ℕ
elapsed_us cur_time start =
    if leb (microseconds start) (microseconds cur_time)
    then (microseconds cur_time - microseconds start) % 4294967296
    else (4294967296 - (microseconds start - microseconds cur_time) % 4294967296) % 4294967296

-- computeTimeout, where `timeradd` is the macro of <sys/time.h>.
unfoldable pub compute_timeout : (Timeval → Timeval → Timeval) → Timeval → ℕ → Timeval
compute_timeout timeradd now period_us =
    timeradd now (record { tv_sec = period_us / 1000000; tv_usec = period_us % 1000000 })
