-- ===== src/Examples/Frames.antt =====
-- Packets that are created and parsed.
use lib_meridian.Prelude.{ℕ, ◌≡◌, ◌<◌, ◌≤◌, ◌+◌, refl, true, [], ◌∷◌, length, some, arith}
use lib_meridian.Node.{
  NodeIdent, NodeIdentConst, NodeIdentLat, NodeIdentRendv, InRange, lt_node_ident,
}
use lib_meridian.Host.{Host, little}
use lib_meridian.OrdMap.{OrdMap}
use lib_meridian.RealPacket.{RealPacket, success, IsValid, new_real_packet, without_rendv, pay_load}
use lib_meridian.RealPacket.Appends.{new_real_packet-IsValid}
use lib_meridian.BufferWrapper.{new_buffer_wrapper}
use lib_meridian.Packet.{parse_header}
use lib_meridian.Packet.Header.{Sent}
use lib_meridian.Packets.ReqGeneric
use lib_meridian.Packets.ReqGeneric.{ReqGeneric, measure_tcp}
use lib_meridian.Packets.ReqGeneric.RoundTrip as MeasureTrip
use lib_meridian.Packets.ReqGeneric.RoundTrip.{measure_round_trip}
use lib_meridian.Packets.ReqConstraintGeneric
use lib_meridian.Packets.ReqConstraintGeneric.{ReqConstraintGeneric, constraint_dns}
use lib_meridian.Packets.ReqConstraintGeneric.RoundTrip as ConstraintTrip
use lib_meridian.Packets.ReqConstraintGeneric.RoundTrip.{constraint_round_trip}
use lib_meridian.Packets.ReqClosestGeneric
use lib_meridian.Packets.ReqClosestGeneric.{ReqClosestGeneric, closest_merid_ping}
use lib_meridian.Packets.ReqClosestGeneric.RoundTrip as ClosestTrip
use lib_meridian.Packets.ReqClosestGeneric.RoundTrip.{closest_round_trip}
use lib_meridian.Packets.GossipPacketGeneric
use lib_meridian.Packets.GossipPacketGeneric.{GossipPacketGeneric, gossip_push}
use lib_meridian.Packets.GossipPacketGeneric.RoundTrip as GossipTrip
use lib_meridian.Packets.GossipPacketGeneric.RoundTrip.{gossip_round_trip}
use lib_meridian.Packets.RetPing
use lib_meridian.Packets.RetPing.{RetPing}
use lib_meridian.Packets.RetPing.RoundTrip as RetPingTrip
use lib_meridian.Packets.RetPing.RoundTrip.{ret_ping_round_trip}
use lib_meridian.Packets.RetError
use lib_meridian.Packets.RetError.{RetError}
use lib_meridian.Packets.RetError.{ret_error_round_trip}
use lib_meridian.Packets.RetInfo
use lib_meridian.Packets.RetInfo.{RetInfo, seen_from}
use lib_meridian.Packets.RetInfo.{ret_info_round_trip}
use lib_meridian.Packets.Control
use lib_meridian.Packets.Control.{pong_packet, packet_type, control_round_trip}
use lib_meridian.Packets.RetResponse
use lib_meridian.Packets.RetResponse.{new_ret_response}
use lib_meridian.Packets.RetResponse.RoundTrip as ResponseTrip
use lib_meridian.Packets.RetResponse.RoundTrip.{ret_response_round_trip, received}

abbrev pub host : Host
host = record { order = little; magic_number = 168364039 }

abbrev pub node_a : NodeIdent
node_a = record { addr = 2130706433; port = 3964 }

abbrev pub node_b : NodeIdent
node_b = record { addr = 3232235777; port = 3965 }

node_a-InRange : InRange node_a
node_a-InRange = record { addr_range = omega arith; port_range = omega arith }

pub node_b-InRange : InRange node_b
node_b-InRange = record { addr_range = omega arith; port_range = omega arith }

abbrev fresh : RealPacket
fresh = new_real_packet (without_rendv node_a) 1400

fresh-IsValid : IsValid fresh
fresh-IsValid = new_real_packet-IsValid (without_rendv node_a) 1400 (omega arith)

fresh-empty : pay_load fresh ≡ []
unfolding pay_load new_real_packet
fresh-empty = refl

abbrev measure : ReqGeneric
measure = record {
  kind = measure_tcp;
  req_id = 81985529216486895;
  rendv_addr = 0;
  rendv_port = 0;
  targets = node_a ∷ node_b ∷ [];
}

measure-IsSendable : MeasureTrip.IsSendable measure
measure-IsSendable = record {
  req_id = omega arith;
  rendv_addr = omega arith;
  rendv_port = omega arith;
  targets = (node_a-InRange, (node_b-InRange, tt));
  few_targets = omega arith;
}

measure_round_trip_example :
    Sent
      ((0 < 2)
        × (fresh.complete ≡ true)
        × (fresh.size + length (ReqGeneric.layout host measure) ≤ fresh.max_packet_size))
      (ReqGeneric.parse host measure_tcp
          (pay_load (ReqGeneric.create_real_packet host measure fresh).1)
        ≡ some measure)
      ((ReqGeneric.create_real_packet host measure fresh).0)
measure_round_trip_example =
    measure_round_trip host measure fresh (omega arith) measure-IsSendable fresh-IsValid fresh-empty

abbrev limited : NodeIdentConst
limited = record { addr = 2130706433; port = 3964; latency_const_ms = 40 }

abbrev timed : NodeIdentLat
timed = record { addr = 2130706433; port = 3964; latency_us = 40250 }

abbrev reached : NodeIdentRendv
reached = record { addr = 2130706433; port = 3964; addr_rendv = 3232235777; port_rendv = 3965 }

abbrev constraint : ReqConstraintGeneric
constraint = record {
  kind = constraint_dns;
  req_id = 81985529216486895;
  rendv_addr = 0;
  rendv_port = 0;
  beta_num = 1;
  beta_den = 2;
  targets = limited ∷ [];
}

constraint-IsSendable : ConstraintTrip.IsSendable constraint
constraint-IsSendable = record {
  req_id = omega arith;
  rendv_addr = omega arith;
  rendv_port = omega arith;
  beta_num = omega arith;
  beta_den = omega arith;
  targets = (
    record { addr_range = omega arith; port_range = omega arith; latency_range = omega arith },
    tt,
  );
  few_targets = omega arith;
}

constraint_round_trip_example :
    Sent
      ((0 < 1)
        × (fresh.complete ≡ true)
        × (fresh.size + length (ReqConstraintGeneric.layout host constraint)
            ≤ fresh.max_packet_size))
      (ReqConstraintGeneric.parse host constraint_dns
          (pay_load (ReqConstraintGeneric.create_real_packet host constraint fresh).1)
        ≡ some constraint)
      ((ReqConstraintGeneric.create_real_packet host constraint fresh).0)
constraint_round_trip_example =
    constraint_round_trip host constraint fresh (omega arith) constraint-IsSendable fresh-IsValid
      fresh-empty

abbrev closest : ReqClosestGeneric
closest = record {
  kind = closest_merid_ping;
  req_id = 81985529216486895;
  rendv_addr = 0;
  rendv_port = 0;
  beta_num = 1;
  beta_den = 2;
  targets = node_b ∷ [];
}

closest-IsSendable : ClosestTrip.IsSendable closest
closest-IsSendable = record {
  req_id = omega arith;
  rendv_addr = omega arith;
  rendv_port = omega arith;
  beta_num = omega arith;
  beta_den = omega arith;
  targets = (node_b-InRange, tt);
  few_targets = omega arith;
}

closest_round_trip_example :
    Sent
      ((0 < 1)
        × (fresh.complete ≡ true)
        × (fresh.size + length (ReqClosestGeneric.layout host closest) ≤ fresh.max_packet_size))
      (ReqClosestGeneric.parse host closest_merid_ping
          (pay_load (ReqClosestGeneric.create_real_packet host closest fresh).1)
        ≡ some closest)
      ((ReqClosestGeneric.create_real_packet host closest fresh).0)
closest_round_trip_example =
    closest_round_trip host closest fresh (omega arith) closest-IsSendable fresh-IsValid fresh-empty

abbrev gossip : GossipPacketGeneric
gossip = record {
  kind = gossip_push;
  req_id = 81985529216486895;
  rendv_addr = 0;
  rendv_port = 0;
  targets = reached ∷ [];
}

gossip-IsSendable : GossipTrip.IsSendable gossip
gossip-IsSendable = record {
  req_id = omega arith;
  rendv_addr = omega arith;
  rendv_port = omega arith;
  targets = (
    record {
      addr_range = omega arith;
      port_range = omega arith;
      addr_rendv_range = omega arith;
      port_rendv_range = omega arith;
    },
    tt,
  );
  few_targets = omega arith;
}

gossip_round_trip_example :
    Sent
      ((fresh.complete ≡ true)
        × (fresh.size + length (GossipPacketGeneric.layout host gossip) ≤ fresh.max_packet_size))
      (GossipPacketGeneric.parse host gossip_push
          (pay_load (GossipPacketGeneric.create_real_packet host gossip fresh).1)
        ≡ some gossip)
      ((GossipPacketGeneric.create_real_packet host gossip fresh).0)
gossip_round_trip_example =
    gossip_round_trip host gossip fresh (omega arith) gossip-IsSendable fresh-IsValid fresh-empty

abbrev ret_ping : RetPing
ret_ping = record { req_id = 7; nodes = timed ∷ [] }

ret_ping-IsSendable : RetPingTrip.IsSendable ret_ping
ret_ping-IsSendable = record {
  req_id = omega arith;
  nodes = (
    record { addr_range = omega arith; port_range = omega arith; latency_range = omega arith },
    tt,
  );
  few_nodes = omega arith;
}

ret_ping_round_trip_example :
    Sent
      ((fresh.complete ≡ true)
        × (fresh.size + length (RetPing.layout host ret_ping) ≤ fresh.max_packet_size))
      (RetPing.parse host (pay_load (RetPing.create_real_packet host ret_ping fresh).1)
        ≡ some ret_ping)
      ((RetPing.create_real_packet host ret_ping fresh).0)
ret_ping_round_trip_example =
    ret_ping_round_trip host ret_ping fresh (omega arith) ret_ping-IsSendable fresh-IsValid
      fresh-empty

abbrev ret_error : RetError
ret_error = record { req_id = 7 }

ret_error_round_trip_example :
    Sent
      ((fresh.complete ≡ true)
        × (fresh.size + length (RetError.layout host ret_error) ≤ fresh.max_packet_size))
      (RetError.parse host (pay_load (RetError.create_real_packet host ret_error fresh).1)
        ≡ some ret_error)
      ((RetError.create_real_packet host ret_error fresh).0)
ret_error_round_trip_example =
    ret_error_round_trip host ret_error fresh (omega arith) (omega arith) fresh-IsValid fresh-empty

abbrev ret_info : RetInfo
ret_info = record { req_id = 7; addr = 0; port = 0 }

ret_info-IsSendable : RetInfo.IsSendable ret_info
ret_info-IsSendable = record { req_id = omega arith; addr = omega arith; port = omega arith }

ret_info_round_trip_example :
    Sent
      ((fresh.complete ≡ true)
        × (fresh.size + length (RetInfo.layout host ret_info) ≤ fresh.max_packet_size))
      (RetInfo.parse host node_b (pay_load (RetInfo.create_real_packet host ret_info fresh).1)
        ≡ some (seen_from node_b ret_info))
      ((RetInfo.create_real_packet host ret_info fresh).0)
ret_info_round_trip_example =
    ret_info_round_trip host node_b ret_info fresh (omega arith) ret_info-IsSendable fresh-IsValid
      fresh-empty

control_round_trip_example :
    Sent
      ((fresh.complete ≡ true)
        × (fresh.size + length (Control.layout host pong_packet 7) ≤ fresh.max_packet_size))
      ((parse_header host
          (new_buffer_wrapper (pay_load (Control.create_real_packet host pong_packet 7 fresh).1))).0
        ≡ (packet_type pong_packet, 7, success))
      ((Control.create_real_packet host pong_packet 7 fresh).0)
control_round_trip_example =
    control_round_trip host pong_packet 7 fresh (omega arith) (omega arith) fresh-IsValid
      fresh-empty

abbrev latencies : OrdMap NodeIdent ℕ
latencies = (node_a, 1200) ∷ (node_b, 40250) ∷ []

latencies-IsSendable : ResponseTrip.IsSendable 7 0 0 latencies
unfolding lt_node_ident
latencies-IsSendable = record {
  id_range = omega arith;
  addr_range = omega arith;
  port_range = omega arith;
  entries = (
    record { node_range = node_a-InRange; latency_range = omega arith },
    (record { node_range = node_b-InRange; latency_range = omega arith }, tt),
  );
  ordered = ((refl, tt), (tt, tt));
  few_entries = omega arith;
}

ret_response_round_trip_example :
    let r = new_ret_response 7 0 0 latencies in
    Sent
      ((fresh.complete ≡ true)
        × (fresh.size + length (RetResponse.layout host r) ≤ fresh.max_packet_size))
      (RetResponse.parse host node_b (pay_load (RetResponse.create_real_packet host r fresh).1)
        ≡ some (received node_b 7 0 0 latencies))
      ((RetResponse.create_real_packet host r fresh).0)
ret_response_round_trip_example =
    ret_response_round_trip host node_b 7 0 0 latencies fresh (omega arith) latencies-IsSendable
      fresh-IsValid fresh-empty
