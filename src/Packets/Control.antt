-- ===== src/Packets/Control.antt =====
-- The packets of Marshal.h that hold the header and nothing more: PingPacket, PongPacket,
-- CreateRendv and RetRendv. MeridianProcess reads them back by Packet::parseHeader.
use lib_meridian.Prelude.{ℕ, ◌+◌, ◌≤◌, ◌≡◌, ◌↔◌, true, List, [], ◌∷◌, ◌++◌, length}
use lib_meridian.Node.{IsU32, IsU64}
use lib_meridian.Host.{Host, be32}
use lib_meridian.RealPacket.{
  RealPacket, Status, success, IsValid, append_char, completed, pay_load, ◌⨾◌,
}
use lib_meridian.RealPacket.Appends.{Appends-⨾}
use lib_meridian.BufferWrapper.{new_buffer_wrapper}
use lib_meridian.BufferWrapper.Reads.{
  Reads, Reads->>=, Reads->>=_last, Reads-pure, Reads-check, retrieve_char-Reads, net_uint-Reads,
  error-Reads,
}
use lib_meridian.Packet.{write_id, parse_header, id_bytes, ping, pong, create_rendv, ret_rendv}
use lib_meridian.Packet.Header.{
  Sent, either_end, append_char-Appends, write_id_last-Appends, read_query_id-Reads, Created,
  Created-parse, completed-Created,
}

-- The four classes.
pub data Control : Type 0 where
  ping_packet pong_packet create_rendv_packet ret_rendv_packet : Control

-- getPacketType.
abbrev pub packet_type : Control → ℕ
packet_type ping_packet = ping
packet_type pong_packet = pong
packet_type create_rendv_packet = create_rendv
packet_type ret_rendv_packet = ret_rendv

unfoldable pub create_real_packet : Host → Control → ℕ → RealPacket → Status × RealPacket
create_real_packet h c id in_packet =
    completed ((append_char (packet_type c) ⨾ write_id h id) in_packet)

unfoldable pub layout : Host → Control → ℕ → List ℕ
layout h c id = (packet_type c ∷ []) ++ (id_bytes id ++ be32 h.magic_number)

layout-Created :
    (h : Host) (c : Control) (id : ℕ) (p : RealPacket)
    → IsValid p
    → Created p (layout h c id) (create_real_packet h c id p)
unfolding create_real_packet layout
layout-Created h c id p v =
    completed-Created _ _ p
      (Appends-⨾ (append_char-Appends (packet_type c)) (write_id_last-Appends h id)) v

parse_header-layout :
    (h : Host) (c : Control) (id : ℕ)
    → IsU32 h.magic_number
    → IsU64 id
    → Reads (parse_header h) (layout h c id) (packet_type c, id, success)
unfolding parse_header layout
parse_header-layout h c id magic hid = Reads->>= _ (retrieve_char-Reads (packet_type c)) (
    Reads->>= _ (read_query_id-Reads h id hid) (
      Reads->>=_last _ (net_uint-Reads h h.magic_number magic) (
        Reads->>= _ error-Reads
          (Reads-check h.magic_number _ (Reads-pure (packet_type c, id, success))))))

-- The result of creating the packet, and of parsing it.
control_created :
    (h : Host) (c : Control) (id : ℕ) (p : RealPacket)
    → IsU32 h.magic_number
    → IsU64 id
    → IsValid p
    → ((create_real_packet h c id p).0 ≡ success
        ↔ ((p.complete ≡ true) × (p.size + length (layout h c id) ≤ p.max_packet_size)))
      × (pay_load p ≡ []
          → (create_real_packet h c id p).0 ≡ success
          → (parse_header h (new_buffer_wrapper (pay_load (create_real_packet h c id p).1))).0
            ≡ (packet_type c, id, success))
control_created h c id p magic hid v =
    let k = layout-Created h c id p v in
    (k.succeeds, λ empty ok. Created-parse k (parse_header-layout h c id magic hid) empty ok)

-- For a magic number of 32 bits and a query id of 64 bits, creating a PingPacket, PongPacket,
-- CreateRendv or RetRendv in a valid, empty packet succeeds exactly when the packet is still
-- complete and has room for the layout, and then parseHeader on what was written answers its
-- type and its query id, and reports no failure.
pub control_round_trip :
    (h : Host) (c : Control) (id : ℕ) (p : RealPacket)
    → IsU32 h.magic_number
    → IsU64 id
    → IsValid p
    → pay_load p ≡ []
    → Sent
        ((p.complete ≡ true) × (p.size + length (layout h c id) ≤ p.max_packet_size))
        ((parse_header h (new_buffer_wrapper (pay_load (create_real_packet h c id p).1))).0
          ≡ (packet_type c, id, success))
        ((create_real_packet h c id p).0)
control_round_trip h c id p magic hid v empty =
    let (succeeds, parses) = control_created h c id p magic hid v in
    either_end _ succeeds (parses empty)
