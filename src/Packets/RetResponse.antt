-- ===== src/Packets/RetResponse.antt =====
-- class RetResponse of Marshal.h: the answer to a query, with the latencies from the node that
-- was found to the targets. The targets pass through a std::map on both sides.
pub mod RoundTrip
use lib_meridian.Prelude.{
  ℕ, not, ◌||◌, ◌==◌, nat_eq, List, [], ◌∷◌, ◌++◌, length, map, flat_map, Option, none, some,
  if◌then◌else◌,
}
use lib_meridian.Node.{NodeIdent, NodeIdentLat, node_key}
use lib_meridian.Host.{Host, htonl, htons, be16, be32}
use lib_meridian.OrdMap.{OrdMap, insert}
use lib_meridian.RealPacket.{
  RealPacket, Status, append_uint, append_ushort, append_char, for_each, completed, ◌⨾◌,
}
use lib_meridian.BufferWrapper.{
  Reader, pure, ◌>>=◌, retrieve_char, net_uint, net_ushort, error, read_entries, new_buffer_wrapper,
}
use lib_meridian.Packet.{write_id, read_query_id, id_bytes, ret_response}
use lib_meridian.Packets.Entries.{append_node_lat, node_lat_bytes}
use lib_meridian.Packets.RetInfo.{or_remote}

pub record RetResponse : Type 0 where
  pub req_id : ℕ
  pub addr : ℕ
  pub port : ℕ
  pub targets : List NodeIdentLat

abbrev pub measured : NodeIdent × ℕ → NodeIdentLat
measured (node, latency) = record { addr = node.addr; port = node.port; latency_us = latency }

-- The constructor, which walks the map in the order of its keys.
unfoldable pub new_ret_response : ℕ → ℕ → ℕ → OrdMap NodeIdent ℕ → RetResponse
new_ret_response id in_addr in_port in_targets = record {
  req_id = id;
  addr = in_addr;
  port = in_port;
  targets = map measured in_targets;
}

unfoldable pub get_response : RetResponse → NodeIdent
get_response r = record { addr = r.addr; port = r.port }

unfoldable pub create_real_packet : Host → RetResponse → RealPacket → Status × RealPacket
create_real_packet h r in_packet = completed (
    (append_char ret_response
        ⨾ write_id h r.req_id
        ⨾ append_uint h.order (htonl h.order r.addr)
        ⨾ append_ushort h.order (htons h.order r.port)
        ⨾ append_uint h.order (htonl h.order (length r.targets))
        ⨾ for_each (append_node_lat h) r.targets)
      in_packet)

unfoldable pub read_measured : Host → Reader (NodeIdent × ℕ)
read_measured h = do
  addr ← net_uint h
  port ← net_ushort h
  latency_us ← net_uint h
  pure (record { addr = addr; port = port }, latency_us)

-- `tmpMap[tmpIdent] = latencyUS`.
unfoldable pub store_measured : OrdMap NodeIdent ℕ → NodeIdent × ℕ → OrdMap NodeIdent ℕ
store_measured m (node, latency) = insert node latency m

unfoldable pub parse_body : Host → NodeIdent → Reader (Option RetResponse)
parse_body h in_remote = do
  query_type ← retrieve_char
  failed ← error
  if failed || not (query_type == ret_response) then pure none else do
    query_id ← read_query_id h
    magic_number ← net_uint h
    failed ← error
    if failed || not (magic_number == h.magic_number) then pure none else do
      closest_addr ← net_uint h
      closest_port ← net_ushort h
      num_entry ← net_uint h
      tmp_map ← read_entries (read_measured h) store_measured num_entry []
      failed ← error
      if failed
          then pure none
          else let closest = or_remote in_remote closest_addr closest_port in
            pure (some (new_ret_response query_id closest.addr closest.port tmp_map))

unfoldable pub parse : Host → NodeIdent → List ℕ → Option RetResponse
unfolding parse_body
parse h in_remote buf = (parse_body h in_remote (new_buffer_wrapper buf)).0

unfoldable pub layout : Host → RetResponse → List ℕ
layout h r =
    (ret_response ∷ [])
    ++ (id_bytes r.req_id
        ++ (be32 h.magic_number
            ++ (be32 r.addr
                ++ (be16 r.port
                    ++ (be32 (length r.targets) ++ flat_map node_lat_bytes r.targets)))))
