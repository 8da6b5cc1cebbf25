-- ===== src/Packets/PushPacket.antt =====
-- class PushPacket of Marshal.h: a packet for a node behind a firewall, sent to its rendezvous
-- node. `parse` makes of it the PullPacket that goes down the TCP connection to that node.
pub mod Relay
use lib_meridian.Prelude.{
  ℕ, not, ◌||◌, ◌==◌, nat_eq, List, [], ◌∷◌, ◌++◌, drop, Option, none, some, if◌then◌else◌,
}
use lib_meridian.Node.{NodeIdent}
use lib_meridian.Host.{Host, htonl, htons, be16, be32}
use lib_meridian.RealPacket.{
  RealPacket, Status, success, failure, append_uint, append_ushort, append_char, append_str,
  completed, ◌⨾◌, new_real_packet, without_rendv, max_udp_packet_size,
}
use lib_meridian.BufferWrapper.{
  BufferWrapper, Reader, pure, ◌>>=◌, retrieve_char, net_uint, net_ushort, error,
  new_buffer_wrapper, remain_buf_size, return_pos,
}
use lib_meridian.Packet.{write_id, id_bytes, skip_query_id, push}
use lib_meridian.Packets.PullPacket
use lib_meridian.Packets.PullPacket.{PullPacket}

pub record PushPacket : Type 0 where
  pub req_id : ℕ
  pub dest_ip : ℕ
  pub dest_port : ℕ

unfoldable pub create_real_packet : Host → PushPacket → RealPacket → Status × RealPacket
create_real_packet h r in_packet = completed (
    (append_char push
        ⨾ write_id h r.req_id
        ⨾ append_uint h.order (htonl h.order r.dest_ip)
        ⨾ append_ushort h.order (htons h.order r.dest_port))
      in_packet)

unfoldable pub parse_head : Host → Reader (Option NodeIdent)
parse_head h = do
  query_type ← retrieve_char
  failed ← error
  if failed || not (query_type == push) then pure none else do
    _ ← skip_query_id h
    magic_number ← net_uint h
    in_dest_ip ← net_uint h
    in_dest_port ← net_ushort h
    failed ← error
    if failed || not (magic_number == h.magic_number)
        then pure none
        else pure (some (record { addr = in_dest_ip; port = in_dest_port }))

-- The original packet behind the PullPacket, if both fit.
unfoldable pub attach : List ℕ → Status × RealPacket → Option RealPacket
attach original (failure, ret_packet) = none
attach original (success, ret_packet) =
    let q = append_str original ret_packet in if not q.complete then none else some q

-- Behind the header: `rb` is the cursor.
unfoldable pub forward : Host → NodeIdent → BufferWrapper → Option NodeIdent → Option RealPacket
forward h remote_node rb none = none
forward h remote_node rb (some dest_ident) =
    let ret_packet = new_real_packet (without_rendv dest_ident) max_udp_packet_size in
    let tmp_pull : PullPacket = record {
      req_id = 0;
      src_ip = remote_node.addr;
      src_port = remote_node.port;
      pay_load_size = (remain_buf_size rb).0;
    } in
    attach (drop (return_pos rb).0 rb.buf) (PullPacket.create_real_packet h tmp_pull ret_packet)

unfoldable pub parse : Host → NodeIdent → List ℕ → Option RealPacket
parse h remote_node buf =
    let (head, rb) = parse_head h (new_buffer_wrapper buf) in forward h remote_node rb head

unfoldable pub layout : Host → PushPacket → List ℕ
layout h r =
    (push ∷ [])
    ++ (id_bytes r.req_id ++ (be32 h.magic_number ++ (be32 r.dest_ip ++ be16 r.dest_port)))
