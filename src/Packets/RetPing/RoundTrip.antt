-- ===== src/Packets/RetPing/RoundTrip.antt =====
-- A RetPing that was created can be parsed, and comes back the same.
use lib_meridian.Prelude.{
  ◌+◌, ◌≤◌, ◌≡◌, ◌↔◌, true, nat_eq, [], length, take-length, All, some, arith,
}
use lib_meridian.Node.{IsU32, IsU64}
use lib_meridian.Host.{Host}
use lib_meridian.RealPacket.{RealPacket, IsValid, success, pay_load}
use lib_meridian.RealPacket.Appends.{Appends-⨾, for_each-Appends}
use lib_meridian.BufferWrapper.Reads.{
  Reads, Reads->>=, Reads->>=_last, Reads-pure, Reads-same, retrieve_char-Reads, net_uint-Reads,
  error-Reads, read_vector-Reads,
}
use lib_meridian.Packet.Header.{
  Sent, either_end, append_char-Appends, append_uint-Appends, write_id-Appends, read_query_id-Reads,
  Created, Created-parse, completed-Created,
}
use lib_meridian.Packets.Entries.{count32, append_node_lat, node_lat_bytes}
use lib_meridian.Packets.Entries.Laws.{append_node_lat-Appends, read_node_lat-Reads, InRangeLat}
use lib_meridian.Packet.{ret_ping_req}
use lib_meridian.Packets.RetPing.{RetPing, create_real_packet, parse_body, parse, layout}

-- Each field is in the range of its machine type.
pub record IsSendable (r : RetPing) : Type 0 where
  pub req_id : IsU64 r.req_id
  pub nodes : All InRangeLat r.nodes
  pub few_nodes : IsU32 (length r.nodes)

layout-Created :
    (h : Host) (r : RetPing) (p : RealPacket)
    → IsSendable r
    → IsValid p
    → Created p (layout h r) (create_real_packet h r p)
unfolding create_real_packet layout
layout-Created h r p s v =
    let e : count32 r.nodes ≡ length r.nodes = omega (arith, s.few_nodes) in
    rw (e, take-length)
      (completed-Created _ _ p
        (Appends-⨾ (append_char-Appends ret_ping_req) (
          write_id-Appends h r.req_id (
            Appends-⨾ (append_uint-Appends h (length r.nodes)) (
              for_each-Appends (append_node_lat h) node_lat_bytes r.nodes
                (append_node_lat-Appends h)))))
        v)

parse_body-layout :
    (h : Host) (r : RetPing)
    → IsU32 h.magic_number
    → IsSendable r
    → Reads (parse_body h) (layout h r) (some r)
unfolding parse_body layout
parse_body-layout h r magic s = Reads->>= _ (retrieve_char-Reads ret_ping_req) (
    Reads->>= _ error-Reads (
      Reads->>= _ (read_query_id-Reads h r.req_id s.req_id) (
        Reads->>= _ (net_uint-Reads h h.magic_number magic) (
          Reads->>= _ error-Reads (
            Reads-same h.magic_number _ (
              Reads->>= _ (net_uint-Reads h (length r.nodes) s.few_nodes) (
                Reads->>=_last _
                  (read_vector-Reads _ node_lat_bytes InRangeLat (read_node_lat-Reads h) r.nodes
                    s.nodes)
                  (Reads->>= _ error-Reads (Reads-pure (some r))))))))))

-- The result of creating the packet, and of parsing it.
ret_ping_created :
    (h : Host) (r : RetPing) (p : RealPacket)
    → IsU32 h.magic_number
    → IsSendable r
    → IsValid p
    → ((create_real_packet h r p).0 ≡ success
        ↔ ((p.complete ≡ true) × (p.size + length (layout h r) ≤ p.max_packet_size)))
      × (pay_load p ≡ []
          → (create_real_packet h r p).0 ≡ success
          → parse h (pay_load (create_real_packet h r p).1) ≡ some r)
unfolding parse
ret_ping_created h r p magic s v =
    let c = layout-Created h r p s v in
    (c.succeeds, λ empty ok. Created-parse c (parse_body-layout h r magic s) empty ok)

-- For a magic number of 32 bits and fields in the ranges of their machine types, creating a
-- RetPing in a valid, empty packet succeeds exactly when the packet is still complete and has
-- room for the layout, and then parsing what was written gives it back.
pub ret_ping_round_trip :
    (h : Host) (r : RetPing) (p : RealPacket)
    → IsU32 h.magic_number
    → IsSendable r
    → IsValid p
    → pay_load p ≡ []
    → Sent
        ((p.complete ≡ true) × (p.size + length (layout h r) ≤ p.max_packet_size))
        (parse h (pay_load (create_real_packet h r p).1) ≡ some r)
        ((create_real_packet h r p).0)
ret_ping_round_trip h r p magic s v empty =
    let (succeeds, parses) = ret_ping_created h r p magic s v in
    either_end _ succeeds (parses empty)
