-- ===== src/Packets/RetInfo.antt =====
-- class RetInfo of Marshal.h. A node that reports itself leaves address and port zero, and the
-- receiver puts in where the packet came from.
use lib_meridian.Prelude.{
  ℕ, ◌+◌, ◌≤◌, ◌≡◌, ◌↔◌, true, not, ◌||◌, ◌&&◌, ◌==◌, nat_eq, List, [], ◌∷◌, ◌++◌, length, Option,
  none, some, if◌then◌else◌,
}
use lib_meridian.Node.{NodeIdent, IsU16, IsU32, IsU64}
use lib_meridian.Host.{Host, be16, be32, htonl, htons}
use lib_meridian.RealPacket.{
  RealPacket, Status, success, IsValid, append_char, append_uint, append_ushort, completed,
  pay_load, ◌⨾◌,
}
use lib_meridian.RealPacket.Appends.{Appends-⨾}
use lib_meridian.BufferWrapper.{
  Reader, pure, ◌>>=◌, retrieve_char, net_uint, net_ushort, error, new_buffer_wrapper,
}
use lib_meridian.BufferWrapper.Reads.{
  Reads, Reads->>=, Reads->>=_last, Reads-pure, Reads-same, retrieve_char-Reads, net_uint-Reads,
  net_ushort-Reads, error-Reads,
}
use lib_meridian.Packet.{write_id, read_query_id, id_bytes, ret_info}
use lib_meridian.Packet.Header.{
  Sent, either_end, append_char-Appends, append_uint-Appends, append_ushort-Appends,
  write_id-Appends, read_query_id-Reads, Created, Created-parse, completed-Created,
}

pub record RetInfo : Type 0 where
  pub req_id : ℕ
  pub addr : ℕ
  pub port : ℕ

unfoldable pub get_info_node : RetInfo → NodeIdent
get_info_node r = record { addr = r.addr; port = r.port }

-- The node that a reply names, seen by a receiver to whom `in_remote` sent it.
unfoldable pub or_remote : NodeIdent → ℕ → ℕ → NodeIdent
or_remote in_remote addr port =
    if addr == 0 && port == 0 then in_remote else record { addr = addr; port = port }

unfoldable pub create_real_packet : Host → RetInfo → RealPacket → Status × RealPacket
create_real_packet h r in_packet = completed (
    (append_char ret_info
        ⨾ write_id h r.req_id
        ⨾ append_uint h.order (htonl h.order r.addr)
        ⨾ append_ushort h.order (htons h.order r.port))
      in_packet)

unfoldable pub parse_body : Host → NodeIdent → Reader (Option RetInfo)
parse_body h in_remote_node = do
  query_type ← retrieve_char
  failed ← error
  if failed || not (query_type == ret_info) then pure none else do
    query_id ← read_query_id h
    magic_number ← net_uint h
    in_addr ← net_uint h
    in_port ← net_ushort h
    failed ← error
    if failed || not (magic_number == h.magic_number)
        then pure none
        else let node = or_remote in_remote_node in_addr in_port in
          pure (some (record { req_id = query_id; addr = node.addr; port = node.port }))

unfoldable pub parse : Host → NodeIdent → List ℕ → Option RetInfo
unfolding parse_body
parse h in_remote_node buf = (parse_body h in_remote_node (new_buffer_wrapper buf)).0

unfoldable pub layout : Host → RetInfo → List ℕ
layout h r =
    (ret_info ∷ []) ++ (id_bytes r.req_id ++ (be32 h.magic_number ++ (be32 r.addr ++ be16 r.port)))

-- Each field is in the range of its machine type.
pub record IsSendable (r : RetInfo) : Type 0 where
  pub req_id : IsU64 r.req_id
  pub addr : IsU32 r.addr
  pub port : IsU16 r.port

-- What the receiver makes of a reply.
abbrev pub seen_from : NodeIdent → RetInfo → RetInfo
seen_from in_remote r =
    let node = or_remote in_remote r.addr r.port in record r { addr = node.addr; port = node.port }

layout-Created :
    (h : Host) (r : RetInfo) (p : RealPacket)
    → IsValid p
    → Created p (layout h r) (create_real_packet h r p)
unfolding create_real_packet layout
layout-Created h r p v =
    completed-Created _ _ p
      (Appends-⨾ (append_char-Appends ret_info) (
        write_id-Appends h r.req_id
          (Appends-⨾ (append_uint-Appends h r.addr) (append_ushort-Appends h r.port))))
      v

parse_body-layout :
    (h : Host) (in_remote : NodeIdent) (r : RetInfo)
    → IsU32 h.magic_number
    → IsSendable r
    → Reads (parse_body h in_remote) (layout h r) (some (seen_from in_remote r))
unfolding parse_body layout
parse_body-layout h in_remote r magic s = Reads->>= _ (retrieve_char-Reads ret_info) (
    Reads->>= _ error-Reads (
      Reads->>= _ (read_query_id-Reads h r.req_id s.req_id) (
        Reads->>= _ (net_uint-Reads h h.magic_number magic) (
          Reads->>= _ (net_uint-Reads h r.addr s.addr) (
            Reads->>=_last _ (net_ushort-Reads h r.port s.port) (
              Reads->>= _ error-Reads
                (Reads-same h.magic_number _ (Reads-pure (some (seen_from in_remote r))))))))))

-- The result of creating the packet, and of parsing it.
ret_info_created :
    (h : Host) (in_remote : NodeIdent) (r : RetInfo) (p : RealPacket)
    → IsU32 h.magic_number
    → IsSendable r
    → IsValid p
    → ((create_real_packet h r p).0 ≡ success
        ↔ ((p.complete ≡ true) × (p.size + length (layout h r) ≤ p.max_packet_size)))
      × (pay_load p ≡ []
          → (create_real_packet h r p).0 ≡ success
          → parse h in_remote (pay_load (create_real_packet h r p).1)
            ≡ some (seen_from in_remote r))
unfolding parse
ret_info_created h in_remote r p magic s v =
    let c = layout-Created h r p v in
    (c.succeeds, λ empty ok. Created-parse c (parse_body-layout h in_remote r magic s) empty ok)

-- For a magic number of 32 bits and fields in the ranges of their machine types, creating a
-- RetInfo in a valid, empty packet succeeds exactly when the packet is still complete and has
-- room for the layout, and then parsing what was written gives back the reply, with the address
-- of the sender where the reply names the node 0:0.
pub ret_info_round_trip :
    (h : Host) (in_remote : NodeIdent) (r : RetInfo) (p : RealPacket)
    → IsU32 h.magic_number
    → IsSendable r
    → IsValid p
    → pay_load p ≡ []
    → Sent
        ((p.complete ≡ true) × (p.size + length (layout h r) ≤ p.max_packet_size))
        (parse h in_remote (pay_load (create_real_packet h r p).1) ≡ some (seen_from in_remote r))
        ((create_real_packet h r p).0)
ret_info_round_trip h in_remote r p magic s v empty =
    let (succeeds, parses) = ret_info_created h in_remote r p magic s v in
    either_end _ succeeds (parses empty)
