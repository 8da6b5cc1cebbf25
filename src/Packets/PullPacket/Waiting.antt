-- ===== src/Packets/PullPacket/Waiting.antt =====
-- PullPacket::parse on fewer bytes than the header has.
use lib_meridian.Prelude.{◌<◌, ◌≡◌, refl, not, ◌==◌, nat_eq, length, none, arith}
use lib_meridian.Host.{Host}
use lib_meridian.RealPacket.{RealPacket, pay_load}
use lib_meridian.BufferWrapper.{new_buffer_wrapper}
use lib_meridian.BufferWrapper.Shortage.{
  Fails, Fails->>=, Fails-checked, Fails-last, Takes, Takes->>=, Takes-mapped, ends,
  retrieve_char-Takes, retrieve_uint-Takes, net_uint-Takes, net_ushort-Takes,
}
use lib_meridian.Packet.{pull, skip_query_id}
use lib_meridian.Packets.PullPacket.{parse_head, take_message, parse}

skip_query_id-Takes : (h : Host) → Takes (skip_query_id h) 8
unfolding skip_query_id
skip_query_id-Takes h =
    Takes->>= _ (retrieve_uint-Takes h.order)
      λ _. Takes-mapped (λ _. tt) (retrieve_uint-Takes h.order)

parse_head-Fails : (h : Host) → Fails (parse_head h) 23
unfolding parse_head
parse_head-Fails h = Fails->>= _ retrieve_char-Takes λ query_type.
    Fails-checked (not (query_type == pull)) _ (
      Fails->>= _ (skip_query_id-Takes h) λ _. Fails->>= _ (net_uint-Takes h) λ magic.
        Fails->>= _ (net_uint-Takes h) λ ip. Fails->>= _ (net_ushort-Takes h) λ port.
          Fails->>= _ (net_uint-Takes h) λ size. Fails-last (not (magic == h.magic_number)) _)

-- Then nothing is taken.
pub parse-short : (h : Host) (p : RealPacket) → length (pay_load p) < 23 → parse h p ≡ (none, p)
unfolding parse take_message new_buffer_wrapper
parse-short h p k =
    let e : (parse_head h (new_buffer_wrapper (pay_load p))).0 ≡ none =
      (parse_head-Fails h).answer (new_buffer_wrapper (pay_load p))
        (ends (omega arith) (omega (arith, k))) in
    rw e refl
