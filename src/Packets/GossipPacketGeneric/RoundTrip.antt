-- ===== src/Packets/GossipPacketGeneric/RoundTrip.antt =====
-- A GossipPacketGeneric that was created can be parsed, and comes back the same.
use lib_meridian.Prelude.{
  ◌+◌, ◌≤◌, ◌≡◌, ◌↔◌, true, nat_eq, [], length, take-length, All, some, arith,
}
use lib_meridian.Node.{IsU16, IsU32, IsU64}
use lib_meridian.Host.{Host}
use lib_meridian.RealPacket.{RealPacket, IsValid, success, pay_load}
use lib_meridian.RealPacket.Appends.{Appends-⨾, for_each-Appends}
use lib_meridian.BufferWrapper.Reads.{
  Reads, Reads->>=, Reads->>=_last, Reads-pure, Reads-same, retrieve_char-Reads, net_uint-Reads,
  net_ushort-Reads, error-Reads, read_vector-Reads,
}
use lib_meridian.Packet.Header.{
  Sent, either_end, append_char-Appends, append_uint-Appends, write_id-Appends, write_rendv-Appends,
  read_query_id-Reads, Created, Created-parse, completed-Created,
}
use lib_meridian.Packets.Entries.{count32, append_node_rendv, node_rendv_bytes}
use lib_meridian.Packets.Entries.Laws.{
  append_node_rendv-Appends, read_node_rendv-Reads, InRangeRendv,
}
use lib_meridian.Packets.GossipPacketGeneric.{
  GossipPacketGeneric, type_byte, create_real_packet, parse_body, parse, layout,
}

-- Each field is in the range of its machine type.
pub record IsSendable (r : GossipPacketGeneric) : Type 0 where
  pub req_id : IsU64 r.req_id
  pub rendv_addr : IsU32 r.rendv_addr
  pub rendv_port : IsU16 r.rendv_port
  pub targets : All InRangeRendv r.targets
  pub few_targets : IsU32 (length r.targets)

layout-Created :
    (h : Host) (r : GossipPacketGeneric) (p : RealPacket)
    → IsSendable r
    → IsValid p
    → Created p (layout h r) (create_real_packet h r p)
unfolding create_real_packet layout
layout-Created h r p s v =
    let e : count32 r.targets ≡ length r.targets = omega (arith, s.few_targets) in
    rw (e, take-length)
      (completed-Created _ _ p
        (Appends-⨾ (append_char-Appends (type_byte r.kind)) (
          write_id-Appends h r.req_id (
            write_rendv-Appends h r.rendv_addr r.rendv_port (
              Appends-⨾ (append_uint-Appends h (length r.targets)) (
                for_each-Appends (append_node_rendv h) node_rendv_bytes r.targets
                  (append_node_rendv-Appends h))))))
        v)

parse_body-layout :
    (h : Host) (r : GossipPacketGeneric)
    → IsU32 h.magic_number
    → IsSendable r
    → Reads (parse_body h r.kind) (layout h r) (some r)
unfolding parse_body layout
parse_body-layout h r magic s = Reads->>= _ (retrieve_char-Reads (type_byte r.kind)) (
    Reads->>= _ error-Reads (
      Reads-same (type_byte r.kind) _ (
        Reads->>= _ (read_query_id-Reads h r.req_id s.req_id) (
          Reads->>= _ (net_uint-Reads h h.magic_number magic) (
            Reads->>= _ (net_uint-Reads h r.rendv_addr s.rendv_addr) (
              Reads->>= _ (net_ushort-Reads h r.rendv_port s.rendv_port) (
                Reads->>= _ error-Reads (
                  Reads-same h.magic_number _ (
                    Reads->>= _ (net_uint-Reads h (length r.targets) s.few_targets) (
                      Reads->>=_last _
                        (read_vector-Reads _ node_rendv_bytes InRangeRendv (read_node_rendv-Reads h)
                          r.targets s.targets)
                        (Reads->>= _ error-Reads (Reads-pure (some r)))))))))))))

-- The result of creating the packet, and of parsing it.
gossip_created :
    (h : Host) (r : GossipPacketGeneric) (p : RealPacket)
    → IsU32 h.magic_number
    → IsSendable r
    → IsValid p
    → ((create_real_packet h r p).0 ≡ success
        ↔ ((p.complete ≡ true) × (p.size + length (layout h r) ≤ p.max_packet_size)))
      × (pay_load p ≡ []
          → (create_real_packet h r p).0 ≡ success
          → parse h r.kind (pay_load (create_real_packet h r p).1) ≡ some r)
unfolding parse
gossip_created h r p magic s v =
    let c = layout-Created h r p s v in
    (c.succeeds, λ empty ok. Created-parse c (parse_body-layout h r magic s) empty ok)

-- For a magic number of 32 bits and fields in the ranges of their machine types, creating a
-- GossipPacketGeneric in a valid, empty packet succeeds exactly when the packet is still
-- complete and has room for the layout, and then parsing what was written gives it back.
pub gossip_round_trip :
    (h : Host) (r : GossipPacketGeneric) (p : RealPacket)
    → IsU32 h.magic_number
    → IsSendable r
    → IsValid p
    → pay_load p ≡ []
    → Sent
        ((p.complete ≡ true) × (p.size + length (layout h r) ≤ p.max_packet_size))
        (parse h r.kind (pay_load (create_real_packet h r p).1) ≡ some r)
        ((create_real_packet h r p).0)
gossip_round_trip h r p magic s v empty =
    let (succeeds, parses) = gossip_created h r p magic s v in either_end _ succeeds (parses empty)
