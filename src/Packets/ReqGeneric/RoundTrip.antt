-- ===== src/Packets/ReqGeneric/RoundTrip.antt =====
-- A ReqGeneric that was created can be parsed, and comes back the same.
use lib_meridian.Prelude.{
  ◌+◌, ◌≤◌, ◌<◌, ◌≡◌, ◌↔◌, true, false, ◌==◌, nat_eq, [], length, take-length, All, some, arith,
  Bool-cases, inl, inr,
}
use lib_meridian.Node.{InRange, IsU16, IsU32, IsU64}
use lib_meridian.Host.{Host}
use lib_meridian.RealPacket.{RealPacket, IsValid, success, failure, pay_load}
use lib_meridian.RealPacket.Appends.{Appends-⨾, for_each-Appends}
use lib_meridian.BufferWrapper.Reads.{
  Reads, Reads->>=, Reads->>=_last, Reads-pure, Reads-same, retrieve_char-Reads, net_uint-Reads,
  net_ushort-Reads, error-Reads, read_vector-Reads,
}
use lib_meridian.Packet.Header.{
  Sent, either_end, append_char-Appends, append_uint-Appends, write_id-Appends, write_rendv-Appends,
  read_query_id-Reads, Created, Created-parse, completed-Created,
}
use lib_meridian.Packets.Entries.{count32, append_node, node_bytes}
use lib_meridian.Packets.Entries.Laws.{append_node-Appends, read_node-Reads}
use lib_meridian.Packets.ReqGeneric.{
  ReqGeneric, type_byte, create_real_packet, parse_body, parse, layout,
}

-- Each field is in the range of its machine type.
pub record IsSendable (r : ReqGeneric) : Type 0 where
  pub req_id : IsU64 r.req_id
  pub rendv_addr : IsU32 r.rendv_addr
  pub rendv_port : IsU16 r.rendv_port
  pub targets : All InRange r.targets
  pub few_targets : IsU32 (length r.targets)

layout-Created :
    (h : Host) (r : ReqGeneric) (p : RealPacket)
    → IsSendable r
    → 0 < length r.targets
    → IsValid p
    → Created p (layout h r) (create_real_packet h r p)
unfolding create_real_packet layout
layout-Created h r p s pos v =
    let e : count32 r.targets ≡ length r.targets = omega (arith, s.few_targets) in
    let filled : (length r.targets == 0) ≡ false = ground (arith, pos) in
    rw (e, filled, take-length)
      (completed-Created _ _ p
        (Appends-⨾ (append_char-Appends (type_byte r.kind)) (
          write_id-Appends h r.req_id (
            write_rendv-Appends h r.rendv_addr r.rendv_port (
              Appends-⨾ (append_uint-Appends h (length r.targets))
                (for_each-Appends (append_node h) node_bytes r.targets (append_node-Appends h))))))
        v)

parse_body-layout :
    (h : Host) (r : ReqGeneric)
    → IsU32 h.magic_number
    → IsSendable r
    → Reads (parse_body h r.kind) (layout h r) (some r)
unfolding parse_body layout
parse_body-layout h r magic s = Reads->>= _ (retrieve_char-Reads (type_byte r.kind)) (
    Reads->>= _ error-Reads (
      Reads-same (type_byte r.kind) _ (
        Reads->>= _ (read_query_id-Reads h r.req_id s.req_id) (
          Reads->>= _ (net_uint-Reads h h.magic_number magic) (
            Reads->>= _ (net_uint-Reads h r.rendv_addr s.rendv_addr) (
              Reads->>= _ (net_ushort-Reads h r.rendv_port s.rendv_port) (
                Reads->>= _ error-Reads (
                  Reads-same h.magic_number _ (
                    Reads->>= _ (net_uint-Reads h (length r.targets) s.few_targets) (
                      Reads->>=_last _
                        (read_vector-Reads _ node_bytes InRange (read_node-Reads h) r.targets
                          s.targets)
                        (Reads->>= _ error-Reads (Reads-pure (some r)))))))))))))

-- Without a target nothing is created.
create-empty :
    (h : Host) (r : ReqGeneric) (p : RealPacket)
    → length r.targets ≡ 0
    → create_real_packet h r p ≡ (failure, p)
unfolding create_real_packet
create-empty h r p e = rw e

-- The result of creating the packet, and of parsing it.
measure_created :
    (h : Host) (r : ReqGeneric) (p : RealPacket)
    → IsU32 h.magic_number
    → IsSendable r
    → IsValid p
    → ((create_real_packet h r p).0 ≡ success ↔ (
        (0 < length r.targets)
        × (p.complete ≡ true)
        × (p.size + length (layout h r) ≤ p.max_packet_size)))
      × (pay_load p ≡ []
          → (create_real_packet h r p).0 ≡ success
          → parse h r.kind (pay_load (create_real_packet h r p).1) ≡ some r)
unfolding parse
measure_created h r p magic s v = elim (Bool-cases (length r.targets == 0)) [
  | inl z ↦
      let e : length r.targets ≡ 0 = ground arith in
      rw (create-empty h r p e)
        (((λ ok. cc), (λ ok. absurd (omega (arith, e, ok.0)))), (λ _ ok. cc))
  | inr pos ↦
      let filled : 0 < length r.targets = ground arith in
      let c = layout-Created h r p s filled v in
      (
        (
          (λ ok. (filled, (c.succeeds.0 ok).0, (c.succeeds.0 ok).1)),
          (λ ok. c.succeeds.1 (ok.1, ok.2)),
        ),
        (λ empty ok. Created-parse c (parse_body-layout h r magic s) empty ok),
      )
]

-- For a magic number of 32 bits and fields in the ranges of their machine types, creating a
-- ReqGeneric in a valid, empty packet succeeds exactly when there is a target, the packet is
-- still complete and has room for the layout, and then parsing what was written gives it back.
pub measure_round_trip :
    (h : Host) (r : ReqGeneric) (p : RealPacket)
    → IsU32 h.magic_number
    → IsSendable r
    → IsValid p
    → pay_load p ≡ []
    → Sent
        ((0 < length r.targets)
          × (p.complete ≡ true)
          × (p.size + length (layout h r) ≤ p.max_packet_size))
        (parse h r.kind (pay_load (create_real_packet h r p).1) ≡ some r)
        ((create_real_packet h r p).0)
measure_round_trip h r p magic s v empty =
    let (succeeds, parses) = measure_created h r p magic s v in either_end _ succeeds (parses empty)
