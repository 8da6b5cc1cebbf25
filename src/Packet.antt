-- ===== src/Packet.antt =====
-- classes Packet and RendvHeaderPacket of Marshal.h: the request id and the headers that every
-- packet starts with, and the packet types.
pub mod Header
use lib_meridian.Prelude.{
  ℕ, ◌+◌, ◌*◌, ◌/◌, ◌%◌, ◌^◌, ◌≡◌, Bool, true, false, not, ◌||◌, ◌==◌, nat_eq, List, ◌++◌, Option,
  none, some, if◌then◌else◌,
}
use lib_meridian.Host.{Host, be16, be32, htons, htonl}
use lib_meridian.RealPacket.{RealPacket, Status, success, failure, append_uint, append_ushort, ◌⨾◌}
use lib_meridian.BufferWrapper.{Reader, pure, ◌>>=◌, retrieve_char, net_uint, retrieve_uint, error}

-- The #defines of the packet types.
abbrev pub req_constraint_n_tcp : ℕ
req_constraint_n_tcp = 1

abbrev pub req_closest_n_tcp : ℕ
req_closest_n_tcp = 2

abbrev pub req_measure_n_tcp : ℕ
req_measure_n_tcp = 3

abbrev pub req_closest_n_merid_ping : ℕ
req_closest_n_merid_ping = 4

abbrev pub req_measure_n_merid_ping : ℕ
req_measure_n_merid_ping = 5

abbrev pub req_closest_n_dns : ℕ
req_closest_n_dns = 6

abbrev pub req_measure_n_dns : ℕ
req_measure_n_dns = 7

abbrev pub ret_response : ℕ
ret_response = 9

abbrev pub gossip : ℕ
gossip = 10

abbrev pub push : ℕ
push = 11

abbrev pub pull : ℕ
pull = 12

abbrev pub ret_ping_req : ℕ
ret_ping_req = 13

abbrev pub ping : ℕ
ping = 14

abbrev pub pong : ℕ
pong = 15

abbrev pub create_rendv : ℕ
create_rendv = 16

abbrev pub ret_rendv : ℕ
ret_rendv = 17

abbrev pub ret_error : ℕ
ret_error = 18

abbrev pub ret_info : ℕ
ret_info = 19

abbrev pub req_constraint_n_dns : ℕ
req_constraint_n_dns = 20

abbrev pub req_constraint_n_ping : ℕ
req_constraint_n_ping = 21

abbrev pub info_packet : ℕ
info_packet = 22

abbrev pub gossip_pull : ℕ
gossip_pull = 23

abbrev pub req_measure_n_icmp : ℕ
req_measure_n_icmp = 26

abbrev pub req_closest_n_icmp : ℕ
req_closest_n_icmp = 27

abbrev pub req_constraint_n_icmp : ℕ
req_constraint_n_icmp = 28

-- id_1 << 32 over uint64_t leaves 32 zero bits, so that |= of a uint32_t is a sum.
unfoldable pub to64 : ℕ → ℕ → ℕ
to64 id_1 id_2 = (id_1 * 2 ^ 32) % 2 ^ 64 + id_2

unfoldable pub to32 : ℕ → ℕ × ℕ
to32 id = (id / 2 ^ 32 % 2 ^ 32, id % 2 ^ 32)

unfoldable pub ret_req_id : ℕ × ℕ → ℕ
unfolding to64
ret_req_id (req_id_1, req_id_2) = to64 req_id_1 req_id_2

unfoldable pub write_id : Host → ℕ → RealPacket → RealPacket
write_id h id =
    append_uint h.order (htonl h.order (to32 id).0)
    ⨾ append_uint h.order (htonl h.order (to32 id).1)
    ⨾ append_uint h.order (htonl h.order h.magic_number)

unfoldable pub write_rendv : Host → ℕ → ℕ → RealPacket → RealPacket
write_rendv h rendv_addr rendv_port =
    append_uint h.order (htonl h.order rendv_addr)
    ⨾ append_ushort h.order (htons h.order rendv_port)

-- The two reads of a query id and their to64.
unfoldable pub read_query_id : Host → Reader ℕ
read_query_id h = do
  query_id_1 ← net_uint h
  query_id_2 ← net_uint h
  pure (to64 query_id_1 query_id_2)

-- The two reads that step over the query id.
unfoldable pub skip_query_id : Host → Reader (Unit {0})
skip_query_id h = do _ ← retrieve_uint h.order; _ ← retrieve_uint h.order; pure tt

-- The type, the query id and the result of parseHeader.
unfoldable pub parse_header : Host → Reader (ℕ × ℕ × Status)
parse_header h = do
  query_type ← retrieve_char
  query_id ← read_query_id h
  magic_number ← net_uint h
  failed ← error
  if failed
      then pure (query_type, query_id, failure)
      else if not (magic_number == h.magic_number)
      then pure (query_type, query_id, failure)
      else pure (query_type, query_id, success)

-- The headers on the wire.
abbrev pub id_bytes : ℕ → List ℕ
id_bytes id = be32 (id / 2 ^ 32 % 2 ^ 32) ++ be32 (id % 2 ^ 32)
