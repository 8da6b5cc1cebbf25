-- ===== src/Packets/ReqClosestGeneric.antt =====
-- class ReqClosestGeneric of Marshal.h with its subclasses ReqClosestTCP, ReqClosestMeridPing,
-- ReqClosestDNS and ReqClosestICMP.
pub mod RoundTrip
use lib_meridian.Prelude.{
  ℕ, ◌%◌, not, ◌||◌, ◌==◌, nat_eq, List, [], ◌∷◌, ◌++◌, length, take, flat_map, Option, none, some,
  if◌then◌else◌,
}
use lib_meridian.Node.{NodeIdent}
use lib_meridian.Host.{Host, htonl, htons, be16, be32}
use lib_meridian.RealPacket.{
  RealPacket, Status, success, failure, append_uint, append_ushort, append_char, for_each,
  completed, ◌⨾◌,
}
use lib_meridian.BufferWrapper.{
  Reader, pure, ◌>>=◌, retrieve_char, net_uint, net_ushort, error, read_entries, push_back,
  new_buffer_wrapper,
}
use lib_meridian.Packet.{
  write_id, write_rendv, read_query_id, id_bytes, req_closest_n_tcp, req_closest_n_merid_ping,
  req_closest_n_dns, req_closest_n_icmp,
}
use lib_meridian.Packets.Entries.{count32, append_node, read_node, node_bytes}

-- The subclasses.
pub data ClosestKind : Type 0 where
  closest_tcp closest_merid_ping closest_dns closest_icmp : ClosestKind

-- T::type().
abbrev pub type_byte : ClosestKind → ℕ
type_byte closest_tcp = req_closest_n_tcp
type_byte closest_merid_ping = req_closest_n_merid_ping
type_byte closest_dns = req_closest_n_dns
type_byte closest_icmp = req_closest_n_icmp

pub record ReqClosestGeneric : Type 0 where
  pub kind : ClosestKind
  pub req_id : ℕ
  pub rendv_addr : ℕ
  pub rendv_port : ℕ
  pub beta_num : ℕ
  pub beta_den : ℕ
  pub targets : List NodeIdent

unfoldable pub add_target : NodeIdent → ReqClosestGeneric → ReqClosestGeneric
add_target in_node r = record r { targets = push_back r.targets in_node }

unfoldable pub create_real_packet : Host → ReqClosestGeneric → RealPacket → Status × RealPacket
create_real_packet h r in_packet =
    let num_targets = count32 r.targets in
    if num_targets == 0
    then (failure, in_packet)
    else completed (
        (append_char (type_byte r.kind)
            ⨾ write_id h r.req_id
            ⨾ write_rendv h r.rendv_addr r.rendv_port
            ⨾ append_ushort h.order (htons h.order r.beta_num)
            ⨾ append_ushort h.order (htons h.order r.beta_den)
            ⨾ append_uint h.order (htonl h.order num_targets)
            ⨾ for_each (append_node h) (take num_targets r.targets))
          in_packet)

unfoldable pub parse_body : Host → ClosestKind → Reader (Option ReqClosestGeneric)
parse_body h kind = do
  query_type ← retrieve_char
  failed ← error
  if failed || not (query_type == type_byte kind) then pure none else do
    query_id ← read_query_id h
    magic_number ← net_uint h
    rendv_addr ← net_uint h
    rendv_port ← net_ushort h
    in_beta_num ← net_ushort h
    in_beta_den ← net_ushort h
    failed ← error
    if failed || not (magic_number == h.magic_number) then pure none else do
      num_entry ← net_uint h
      targets ← read_entries (read_node h) push_back num_entry []
      failed ← error
      if failed
          then pure none
          else pure (
              some (record {
                kind = kind;
                req_id = query_id;
                rendv_addr = rendv_addr;
                rendv_port = rendv_port;
                beta_num = in_beta_num;
                beta_den = in_beta_den;
                targets = targets;
              }))

unfoldable pub parse : Host → ClosestKind → List ℕ → Option ReqClosestGeneric
unfolding parse_body
parse h kind buf = (parse_body h kind (new_buffer_wrapper buf)).0

-- The layout of the packet.
unfoldable pub layout : Host → ReqClosestGeneric → List ℕ
layout h r =
    (type_byte r.kind ∷ [])
    ++ (id_bytes r.req_id
        ++ (be32 h.magic_number
            ++ (be32 r.rendv_addr
                ++ (be16 r.rendv_port
                    ++ (be16 r.beta_num
                        ++ (be16 r.beta_den
                            ++ (be32 (length r.targets) ++ (flat_map node_bytes r.targets))))))))
