-- ===== src/Packets/RetError.antt =====
-- class RetError of Marshal.h.
use lib_meridian.Prelude.{
  ℕ, ◌+◌, ◌≤◌, ◌≡◌, ◌↔◌, true, not, ◌||◌, ◌==◌, nat_eq, List, [], ◌∷◌, ◌++◌, length, Option, none,
  some, if◌then◌else◌,
}
use lib_meridian.Node.{IsU32, IsU64}
use lib_meridian.Host.{Host, be32}
use lib_meridian.RealPacket.{
  RealPacket, Status, success, IsValid, append_char, completed, pay_load, ◌⨾◌,
}
use lib_meridian.RealPacket.Appends.{Appends-⨾}
use lib_meridian.BufferWrapper.{
  Reader, pure, ◌>>=◌, retrieve_char, net_uint, error, new_buffer_wrapper,
}
use lib_meridian.BufferWrapper.Reads.{
  Reads, Reads->>=, Reads->>=_last, Reads-pure, Reads-same, retrieve_char-Reads, net_uint-Reads,
  error-Reads,
}
use lib_meridian.Packet.{write_id, read_query_id, id_bytes, ret_error}
use lib_meridian.Packet.Header.{
  Sent, either_end, append_char-Appends, read_query_id-Reads, Created, Created-parse,
  completed-Created, write_id_last-Appends,
}

pub record RetError : Type 0 where
  pub req_id : ℕ

unfoldable pub create_real_packet : Host → RetError → RealPacket → Status × RealPacket
create_real_packet h r in_packet =
    completed ((append_char ret_error ⨾ write_id h r.req_id) in_packet)

unfoldable pub parse_body : Host → Reader (Option RetError)
parse_body h = do
  query_type ← retrieve_char
  failed ← error
  if failed || not (query_type == ret_error) then pure none else do
    query_id ← read_query_id h
    magic_number ← net_uint h
    failed ← error
    if failed || not (magic_number == h.magic_number)
        then pure none
        else pure (some (record { req_id = query_id }))

unfoldable pub parse : Host → List ℕ → Option RetError
unfolding parse_body
parse h buf = (parse_body h (new_buffer_wrapper buf)).0

unfoldable pub layout : Host → RetError → List ℕ
layout h r = (ret_error ∷ []) ++ (id_bytes r.req_id ++ be32 h.magic_number)

layout-Created :
    (h : Host) (r : RetError) (p : RealPacket)
    → IsValid p
    → Created p (layout h r) (create_real_packet h r p)
unfolding create_real_packet layout
layout-Created h r p v =
    completed-Created _ _ p
      (Appends-⨾ (append_char-Appends ret_error) (write_id_last-Appends h r.req_id)) v

parse_body-layout :
    (h : Host) (r : RetError)
    → IsU32 h.magic_number
    → IsU64 r.req_id
    → Reads (parse_body h) (layout h r) (some r)
unfolding parse_body layout
parse_body-layout h r magic id = Reads->>= _ (retrieve_char-Reads ret_error) (
    Reads->>= _ error-Reads (
      Reads->>= _ (read_query_id-Reads h r.req_id id) (
        Reads->>=_last _ (net_uint-Reads h h.magic_number magic)
          (Reads->>= _ error-Reads (Reads-same h.magic_number _ (Reads-pure (some r)))))))

-- The result of creating the packet, and of parsing it.
ret_error_created :
    (h : Host) (r : RetError) (p : RealPacket)
    → IsU32 h.magic_number
    → IsU64 r.req_id
    → IsValid p
    → ((create_real_packet h r p).0 ≡ success
        ↔ ((p.complete ≡ true) × (p.size + length (layout h r) ≤ p.max_packet_size)))
      × (pay_load p ≡ []
          → (create_real_packet h r p).0 ≡ success
          → parse h (pay_load (create_real_packet h r p).1) ≡ some r)
unfolding parse
ret_error_created h r p magic id v =
    let c = layout-Created h r p v in
    (c.succeeds, λ empty ok. Created-parse c (parse_body-layout h r magic id) empty ok)

-- For a magic number of 32 bits and a query id of 64 bits, creating a RetError in a valid, empty
-- packet succeeds exactly when the packet is still complete and has room for the layout, and
-- then parsing what was written gives it back.
pub ret_error_round_trip :
    (h : Host) (r : RetError) (p : RealPacket)
    → IsU32 h.magic_number
    → IsU64 r.req_id
    → IsValid p
    → pay_load p ≡ []
    → Sent
        ((p.complete ≡ true) × (p.size + length (layout h r) ≤ p.max_packet_size))
        (parse h (pay_load (create_real_packet h r p).1) ≡ some r)
        ((create_real_packet h r p).0)
ret_error_round_trip h r p magic id v empty =
    let (succeeds, parses) = ret_error_created h r p magic id v in
    either_end _ succeeds (parses empty)
