-- ===== src/Packets/RetPing.antt =====
-- class RetPing of Marshal.h.
pub mod RoundTrip
use lib_meridian.Prelude.{
  ℕ, ◌%◌, not, ◌||◌, ◌==◌, nat_eq, List, [], ◌∷◌, ◌++◌, length, take, flat_map, Option, none, some,
  if◌then◌else◌,
}
use lib_meridian.Node.{NodeIdentLat, NodeIdent}
use lib_meridian.Host.{Host, htonl, htons, be16, be32}
use lib_meridian.RealPacket.{
  RealPacket, Status, success, failure, append_uint, append_ushort, append_char, for_each,
  completed, ◌⨾◌,
}
use lib_meridian.BufferWrapper.{
  Reader, pure, ◌>>=◌, retrieve_char, net_uint, net_ushort, error, read_entries, push_back,
  new_buffer_wrapper,
}
use lib_meridian.Packet.{write_id, write_rendv, read_query_id, id_bytes, ret_ping_req}
use lib_meridian.Packets.Entries.{count32, append_node_lat, read_node_lat, node_lat_bytes}

pub record RetPing : Type 0 where
  pub req_id : ℕ
  pub nodes : List NodeIdentLat

unfoldable pub add_node : NodeIdent → ℕ → RetPing → RetPing
add_node in_node in_latency_us r =
    let tmp : NodeIdentLat = record {
      addr = in_node.addr;
      port = in_node.port;
      latency_us = in_latency_us;
    } in
    record r { nodes = push_back r.nodes tmp }

unfoldable pub create_real_packet : Host → RetPing → RealPacket → Status × RealPacket
create_real_packet h r in_packet =
    let num_nodes = count32 r.nodes in
    completed (
      (append_char ret_ping_req
          ⨾ write_id h r.req_id
          ⨾ append_uint h.order (htonl h.order num_nodes)
          ⨾ for_each (append_node_lat h) (take num_nodes r.nodes))
        in_packet)

unfoldable pub parse_body : Host → Reader (Option RetPing)
parse_body h = do
  query_type ← retrieve_char
  failed ← error
  if failed || not (query_type == ret_ping_req) then pure none else do
    query_id ← read_query_id h
    magic_number ← net_uint h
    failed ← error
    if failed || not (magic_number == h.magic_number) then pure none else do
      num_entry ← net_uint h
      nodes ← read_entries (read_node_lat h) push_back num_entry []
      failed ← error
      if failed then pure none else pure (some (record { req_id = query_id; nodes = nodes }))

unfoldable pub parse : Host → List ℕ → Option RetPing
unfolding parse_body
parse h buf = (parse_body h (new_buffer_wrapper buf)).0

-- The layout of the packet.
unfoldable pub layout : Host → RetPing → List ℕ
layout h r =
    (ret_ping_req ∷ [])
    ++ (id_bytes r.req_id
        ++ (be32 h.magic_number ++ (be32 (length r.nodes) ++ (flat_map node_lat_bytes r.nodes))))
