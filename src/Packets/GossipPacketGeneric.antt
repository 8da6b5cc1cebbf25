-- ===== src/Packets/GossipPacketGeneric.antt =====
-- class GossipPacketGeneric of Marshal.h with its subclasses GossipPacketPush and GossipPacketPull.
pub mod RoundTrip
use lib_meridian.Prelude.{
  ℕ, ◌%◌, not, ◌||◌, ◌==◌, nat_eq, List, [], ◌∷◌, ◌++◌, length, take, flat_map, Option, none, some,
  if◌then◌else◌,
}
use lib_meridian.Node.{NodeIdentRendv}
use lib_meridian.Host.{Host, htonl, htons, be16, be32}
use lib_meridian.RealPacket.{
  RealPacket, Status, success, failure, append_uint, append_ushort, append_char, for_each,
  completed, ◌⨾◌,
}
use lib_meridian.BufferWrapper.{
  Reader, pure, ◌>>=◌, retrieve_char, net_uint, net_ushort, error, read_entries, push_back,
  new_buffer_wrapper,
}
use lib_meridian.Packet.{write_id, write_rendv, read_query_id, id_bytes, gossip, gossip_pull}
use lib_meridian.Packets.Entries.{count32, append_node_rendv, read_node_rendv, node_rendv_bytes}

-- The subclasses.
pub data GossipKind : Type 0 where
  gossip_push gossip_pull_request : GossipKind

-- T::type().
abbrev pub type_byte : GossipKind → ℕ
type_byte gossip_push = gossip
type_byte gossip_pull_request = gossip_pull

pub record GossipPacketGeneric : Type 0 where
  pub kind : GossipKind
  pub req_id : ℕ
  pub rendv_addr : ℕ
  pub rendv_port : ℕ
  pub targets : List NodeIdentRendv

unfoldable pub add_node : ℕ → ℕ → ℕ → ℕ → GossipPacketGeneric → GossipPacketGeneric
add_node addr port rendv_addr rendv_port r =
    let tmp : NodeIdentRendv = record {
      addr = addr;
      port = port;
      addr_rendv = rendv_addr;
      port_rendv = rendv_port;
    } in
    record r { targets = push_back r.targets tmp }

unfoldable pub create_real_packet : Host → GossipPacketGeneric → RealPacket → Status × RealPacket
create_real_packet h r in_packet =
    let num_targets = count32 r.targets in
    completed (
      (append_char (type_byte r.kind)
          ⨾ write_id h r.req_id
          ⨾ write_rendv h r.rendv_addr r.rendv_port
          ⨾ append_uint h.order (htonl h.order num_targets)
          ⨾ for_each (append_node_rendv h) (take num_targets r.targets))
        in_packet)

unfoldable pub parse_body : Host → GossipKind → Reader (Option GossipPacketGeneric)
parse_body h kind = do
  query_type ← retrieve_char
  failed ← error
  if failed || not (query_type == type_byte kind) then pure none else do
    query_id ← read_query_id h
    magic_number ← net_uint h
    rendv_addr ← net_uint h
    rendv_port ← net_ushort h
    failed ← error
    if failed || not (magic_number == h.magic_number) then pure none else do
      num_entry ← net_uint h
      targets ← read_entries (read_node_rendv h) push_back num_entry []
      failed ← error
      if failed
          then pure none
          else pure (
              some (record {
                kind = kind;
                req_id = query_id;
                rendv_addr = rendv_addr;
                rendv_port = rendv_port;
                targets = targets;
              }))

unfoldable pub parse : Host → GossipKind → List ℕ → Option GossipPacketGeneric
unfolding parse_body
parse h kind buf = (parse_body h kind (new_buffer_wrapper buf)).0

-- The layout of the packet.
unfoldable pub layout : Host → GossipPacketGeneric → List ℕ
layout h r =
    (type_byte r.kind ∷ [])
    ++ (id_bytes r.req_id
        ++ (be32 h.magic_number
            ++ (be32 r.rendv_addr
                ++ (be16 r.rendv_port
                    ++ (be32 (length r.targets) ++ (flat_map node_rendv_bytes r.targets))))))
