-- ===== src/Queries/ProbeQuery.antt =====
-- class ProbeQueryGeneric of Query.h and Query.cpp with its subclasses ProbeQueryTCP, ProbeQueryDNS,
-- ProbeQueryPing and ProbeQueryICMP.
use lib_meridian.Prelude.{
  ℕ, Bool, true, false, ◌==◌, nat_eq, List, [], ◌∷◌, ◌++◌, Option, none, some, if◌then◌else◌,
}
use lib_meridian.Node.{NodeIdent, NodeIdentLat, node_eq, node_key}
use lib_meridian.Host.{Host}
use lib_meridian.RealPacket.{Status, without_rendv}
use lib_meridian.BufferWrapper.{push_back}
use lib_meridian.Timeval.{Timeval}
use lib_meridian.Queries.{
  Kind, tcp, dns, ping_kind, icmp, Action, cache_insert, erase_connection, Outcome, done, refuse,
  new_packet, send_or_refuse, with_latency, notify_all, max_rtt_us, elapsed_us, compute_timeout,
}
use lib_meridian.Packets.Control.{ping_packet}
use lib_meridian.Packets.Control

-- A socket is absent where sockFD is -1.
pub record ProbeQuery : Type 0 where
  pub kind : Kind
  pub sock_fd : Option ℕ
  pub qid : ℕ
  pub remote_node : NodeIdent
  pub finished : Bool
  pub start_time : Timeval
  pub timeout_tv : Timeval
  pub subscribers : List ℕ

unfoldable pub new_query :
    (Timeval → Timeval → Timeval) → Timeval → Timeval → ℕ → Kind → NodeIdent → ProbeQuery
new_query timeradd now unset id kind in_remote = record {
  kind = kind;
  sock_fd = none;
  qid = id;
  remote_node = in_remote;
  finished = false;
  start_time = unset;
  timeout_tv = compute_timeout timeradd now max_rtt_us;
  subscribers = [];
}

abbrev pub start : Timeval → ProbeQuery → ProbeQuery
start now q = record q { start_time = now }

-- The subclasses' init. The answers of addTCPConnection, addDNSConnection and sendICMPProbe are arguments.
unfoldable pub init_tcp : Timeval → Option ℕ → ProbeQuery → Outcome ProbeQuery
init_tcp now connection q = done (record (start now q) { sock_fd = connection }) []

unfoldable pub init_dns : Timeval → Option ℕ → ProbeQuery → Outcome ProbeQuery
init_dns now connection q = done (record (start now q) { sock_fd = connection }) []

unfoldable pub init_ping : Host → Timeval → ProbeQuery → Outcome ProbeQuery
init_ping h now q =
    send_or_refuse (start now q)
      (Control.create_real_packet h ping_packet q.qid (new_packet (without_rendv q.remote_node)))

unfoldable pub init_icmp : Timeval → Status → ProbeQuery → Outcome ProbeQuery
init_icmp now sent q = record { state = start now q; actions = []; answer = sent }

unfoldable pub init : Host → Timeval → Option ℕ → Status → ProbeQuery → Outcome ProbeQuery
init h now connection sent q = elim q.kind [
  | tcp ↦ init_tcp now connection q
  | dns ↦ init_dns now connection q
  | ping_kind ↦ init_ping h now q
  | icmp ↦ init_icmp now sent q
]

abbrev pub close : Kind → Option ℕ → List Action
close kind none = []
close kind (some tmp_fd) = erase_connection kind tmp_fd ∷ []

abbrev pub finish : ProbeQuery → ProbeQuery
finish q = record q { finished = true }

unfoldable pub timeout_tcp : ProbeQuery → Outcome ProbeQuery
timeout_tcp q = done (finish q) (close tcp q.sock_fd)

unfoldable pub timeout_dns : ProbeQuery → Outcome ProbeQuery
timeout_dns q = done (finish q) (close dns q.sock_fd)

unfoldable pub timeout_ping : ProbeQuery → Outcome ProbeQuery
timeout_ping q = done (finish q) []

unfoldable pub timeout_icmp : ProbeQuery → Outcome ProbeQuery
timeout_icmp q = done (finish q) []

unfoldable pub handle_timeout : ProbeQuery → Outcome ProbeQuery
handle_timeout q = elim q.kind [
  | tcp ↦ timeout_tcp q
  | dns ↦ timeout_dns q
  | ping_kind ↦ timeout_ping q
  | icmp ↦ timeout_icmp q
]

unfoldable pub subscribe_latency : ℕ → ProbeQuery → ProbeQuery
subscribe_latency in_qid q = record q { subscribers = push_back q.subscribers in_qid }

-- The latency is measured here; the one of the notice is not read, nor is its port.
unfoldable pub handle_latency : Timeval → List NodeIdentLat → ProbeQuery → Outcome ProbeQuery
handle_latency cur_time (in_remote ∷ []) q =
    let real_latency_us = elapsed_us cur_time q.start_time in
    if in_remote.addr == q.remote_node.addr
    then done (finish q) (
        notify_all q.subscribers (with_latency q.remote_node real_latency_us ∷ [])
        ++ (cache_insert q.kind q.remote_node real_latency_us ∷ []))
    else refuse q
handle_latency cur_time _ q = refuse q

unfoldable pub handle_event : Timeval → NodeIdent → List ℕ → ProbeQuery → Outcome ProbeQuery
unfolding handle_latency
handle_event cur_time in_remote in_packet q =
    handle_latency cur_time (with_latency in_remote 0 ∷ []) q
