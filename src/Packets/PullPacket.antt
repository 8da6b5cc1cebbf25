-- ===== src/Packets/PullPacket.antt =====
-- class PullPacket of Marshal.h: a packet that a rendezvous node relays over TCP to the node behind
-- the firewall, in front of the original payload. `parse` takes one such message off the front of
-- the bytes received and moves the rest of them to the front.
pub mod Waiting
pub mod Framing
use lib_meridian.Prelude.{
  ℕ, ◌+◌, ◌-◌, not, ◌||◌, ◌==◌, nat_eq, List, [], ◌∷◌, ◌++◌, length, take, drop, ltb, Option, none,
  some, if◌then◌else◌, ℤ,
}
use lib_meridian.Node.{NodeIdent}
use lib_meridian.Host.{Host, htonl, htons, be16, be32}
use lib_meridian.RealPacket.{
  RealPacket, Status, append_uint, append_ushort, append_char, completed, ◌⨾◌, new_real_packet,
  without_rendv, memcpy_at, set_pay_load_size, pay_load,
}
use lib_meridian.BufferWrapper.{
  BufferWrapper, Reader, pure, ◌>>=◌, retrieve_char, retrieve_uint, net_uint, net_ushort, error,
  new_buffer_wrapper, remain_buf_size, return_pos,
}
use lib_meridian.Packet.{write_id, id_bytes, skip_query_id, pull}

pub record PullPacket : Type 0 where
  pub req_id : ℕ
  pub src_ip : ℕ
  pub src_port : ℕ
  pub pay_load_size : ℕ

unfoldable pub create_real_packet : Host → PullPacket → RealPacket → Status × RealPacket
create_real_packet h r in_packet = completed (
    (append_char pull
        ⨾ write_id h r.req_id
        ⨾ append_uint h.order (htonl h.order r.src_ip)
        ⨾ append_ushort h.order (htons h.order r.src_port)
        ⨾ append_uint h.order (htonl h.order r.pay_load_size))
      in_packet)

-- The header: who sent the payload, and the payload's size.
unfoldable pub parse_head : Host → Reader (Option (NodeIdent × ℕ))
parse_head h = do
  query_type ← retrieve_char
  failed ← error
  if failed || not (query_type == pull) then pure none else do
    _ ← skip_query_id h
    magic_number ← net_uint h
    in_src_ip ← net_uint h
    in_src_port ← net_ushort h
    in_pay_load_size ← net_uint h
    failed ← error
    if failed || not (magic_number == h.magic_number)
        then pure none
        else pure (some (record { addr = in_src_ip; port = in_src_port }, in_pay_load_size))

-- The packet that holds the `size` bytes of the payload from `pos` on.
unfoldable pub extract : List ℕ → ℕ → ℕ → RealPacket
extract payload pos size =
    let new_packet = new_real_packet (without_rendv (record { addr = 0; port = 0 })) size in
    set_pay_load_size (ℤ.pos size)
      (record new_packet { packet = memcpy_at new_packet.packet 0 (take size (drop pos payload)) })

-- The memmove of what stands behind the first `used` bytes, and the new size.
unfoldable pub consume : ℕ → RealPacket → RealPacket
consume used in_packet =
    let left = drop used (pay_load in_packet) in
    set_pay_load_size (ℤ.pos (in_packet.size - used))
      (record in_packet { packet = memcpy_at in_packet.packet 0 left })

-- Behind the header: `rb` is the cursor.
unfoldable pub take_message :
    RealPacket
    → BufferWrapper
    → Option (NodeIdent × ℕ)
    → Option (RealPacket × NodeIdent) × RealPacket
take_message in_packet rb none = (none, in_packet)
take_message in_packet rb (some (src_node, size)) =
    let remain = (remain_buf_size rb).0 in
    let pos = (return_pos rb).0 in
    if ltb remain size then (none, in_packet) else (
      some (extract (pay_load in_packet) pos size, src_node),
      (if ltb size remain
          then consume (pos + size) in_packet
          else set_pay_load_size (ℤ.pos 0) in_packet),
    )

-- The new packet with its source node, if there is one, and the packet received as it is left.
unfoldable pub parse : Host → RealPacket → Option (RealPacket × NodeIdent) × RealPacket
parse h in_packet =
    let (head, rb) = parse_head h (new_buffer_wrapper (pay_load in_packet)) in
    take_message in_packet rb head

unfoldable pub layout : Host → PullPacket → List ℕ
layout h r =
    (pull ∷ [])
    ++ (id_bytes r.req_id
        ++ (be32 h.magic_number ++ (be32 r.src_ip ++ (be16 r.src_port ++ be32 r.pay_load_size))))
