-- ===== src/Packets/PushPacket/Relay.antt =====
-- A packet sent by way of a rendezvous node arrives as it was sent.
use lib_meridian.Prelude.{
  ℕ, ◌+◌, ◌-◌, ◌≤◌, ◌<◌, ◌≡◌, refl, sym, ap, ◌∙◌, true, false, List, [], ◌++◌, append-nil, length,
  length-append, drop-length-append, some, none, arith,
}
use lib_meridian.Node.{NodeIdent, IsU16, IsU32, InRange}
use lib_meridian.Host.{Host}
use lib_meridian.RealPacket.{
  RealPacket, Status, IsValid, pay_load, append_str, new_real_packet, without_rendv, success,
  failure, max_udp_packet_size,
}
use lib_meridian.RealPacket.Appends.{append_str-Appends, new_real_packet-IsValid}
use lib_meridian.BufferWrapper.{new_buffer_wrapper, remain_buf_size, return_pos}
use lib_meridian.BufferWrapper.Reads.{
  Reads, Reads->>=, Reads->>=_last, Reads-pure, Reads-same, retrieve_char-Reads, net_uint-Reads,
  net_ushort-Reads, error-Reads, new_buffer_wrapper-At,
}
use lib_meridian.Packet.{push}
use lib_meridian.Packet.Header.{skip_query_id-Reads, Created}
use lib_meridian.Packets.PullPacket
use lib_meridian.Packets.PullPacket.{PullPacket}
use lib_meridian.Packets.PullPacket.Framing as Pull
use lib_meridian.Packets.PullPacket.Framing.{layout-Created, length-layout, pull_framing, source}
use lib_meridian.Packets.PushPacket.{PushPacket, parse_head, attach, forward, parse, layout}

-- Each field is in the range of its machine type.
pub record IsSendable (r : PushPacket) : Type 0 where
  pub dest_ip : IsU32 r.dest_ip
  pub dest_port : IsU16 r.dest_port

abbrev pub destination : PushPacket → NodeIdent
destination r = record { addr = r.dest_ip; port = r.dest_port }

parse_head-layout :
    (h : Host) (r : PushPacket)
    → IsU32 h.magic_number
    → IsSendable r
    → Reads (parse_head h) (layout h r) (some (destination r))
unfolding parse_head layout
parse_head-layout h r magic s = Reads->>= _ (retrieve_char-Reads push) (
    Reads->>= _ error-Reads (
      Reads->>= _ (skip_query_id-Reads h r.req_id) (
        Reads->>= _ (net_uint-Reads h h.magic_number magic) (
          Reads->>= _ (net_uint-Reads h r.dest_ip s.dest_ip) (
            Reads->>=_last _ (net_ushort-Reads h r.dest_port s.dest_port) (
              Reads->>= _ error-Reads
                (Reads-same h.magic_number _ (Reads-pure (some (destination r))))))))))

-- The PullPacket that stands in front of `inner`.
abbrev pub pull_for : NodeIdent → List ℕ → PullPacket
pull_for remote inner = record {
  req_id = 0;
  src_ip = remote.addr;
  src_port = remote.port;
  pay_load_size = length inner;
}

-- The bytes that go down the connection.
abbrev pub tunnelled : Host → NodeIdent → List ℕ → List ℕ
tunnelled h remote inner = PullPacket.layout h (pull_for remote inner) ++ inner

parse_run :
    (h : Host) (remote : NodeIdent) (r : PushPacket) (inner : List ℕ)
    → IsU32 h.magic_number
    → IsSendable r
    → parse h remote (layout h r ++ inner)
      ≡ attach inner (
          PullPacket.create_real_packet h
            (pull_for remote inner)
            (new_real_packet (without_rendv (destination r)) max_udp_packet_size))
unfolding parse forward remain_buf_size return_pos new_buffer_wrapper
parse_run h remote r inner magic s =
    let run =
      (parse_head-layout h r magic s).run (new_buffer_wrapper (layout h r ++ inner)) inner
        (new_buffer_wrapper-At (layout h r ++ inner)) in
    let n : length (layout h r ++ inner) - (0 + length (layout h r)) ≡ length inner =
      omega (arith, length-append (layout h r) inner) in
    let u : 0 + length (layout h r) ≡ length (layout h r) = omega arith in
    rw (run, n, u, drop-length-append (layout h r) inner) refl

-- `attach` after a creation.
attach_lem :
    (p : RealPacket) (bs inner : List ℕ) (t : Status × RealPacket)
    → Created p bs t
    → length inner < 2147483648
    → p.complete ≡ true
    → pay_load p ≡ []
    → (p.size + (length bs + length inner) ≤ p.max_packet_size
        → (q : RealPacket) × (attach inner t ≡ some q)
          × (pay_load q ≡ bs ++ inner)
          × IsValid q
          × (q.complete ≡ true)
          × (q.dest ≡ p.dest))
      × (p.max_packet_size < p.size + (length bs + length inner) → attach inner t ≡ none)
unfolding attach
attach_lem p bs inner (failure, q) c short k e =
    (λ fits. absurd (cc (c.succeeds.1 (k, omega arith))), λ _. refl)
attach_lem p bs inner (success, q) c short k e =
    let a = append_str-Appends inner short q c.appended.valid in
    let done : q.complete ≡ true = c.agrees.0 refl in
    let size : q.size ≡ p.size + length bs = c.appended.grown done in
    (
      λ fits.
          let full : (append_str inner q).complete ≡ true =
            ground (arith, a.fits, c.appended.same_max, size, done) in
          (
            append_str inner q,
            rw full refl,
            a.payload full ∙ ap (λ l. l ++ inner) (c.payload refl ∙ ap (λ l. l ++ bs) e),
            a.valid,
            full,
            a.same_dest ∙ c.appended.same_dest,
          ),
      λ over.
          let short : (append_str inner q).complete ≡ false =
            ground (arith, a.fits, c.appended.same_max, size, done) in
          rw short refl,
    )

-- The relay, where the payload fits and where it does not.
relay_lem :
    (h : Host) (remote : NodeIdent) (r : PushPacket) (inner : List ℕ)
    → IsU32 h.magic_number
    → IsSendable r
    → InRange remote
    → length inner < 2147483648
    → (length inner ≤ 1377
        → (q : RealPacket) × (q' : RealPacket) × (left : RealPacket) × (parse h remote
              (layout h r ++ inner)
            ≡ some q)
          × (q.dest ≡ without_rendv (destination r))
          × (PullPacket.parse h q ≡ (some (q', remote), left))
          × (pay_load q' ≡ inner)
          × (pay_load left ≡ []))
      × (1377 < length inner → parse h remote (layout h r ++ inner) ≡ none)
unfolding new_real_packet
relay_lem h remote r inner magic s from short =
    let pull = pull_for remote inner in
    let p = new_real_packet (without_rendv (destination r)) max_udp_packet_size in
    let v =
      new_real_packet-IsValid (without_rendv (destination r)) max_udp_packet_size (omega arith) in
    let size = length-layout h pull in
    let empty : pay_load p ≡ [] = unfold pay_load in refl in
    let k =
      attach_lem p (PullPacket.layout h pull) inner (PullPacket.create_real_packet h pull p)
        (layout-Created h pull p v) short refl empty in
    let run = parse_run h remote r inner magic s in
    (
      λ fits.
          let (q, relayed, payload, valid, complete, to) = k.0 (omega (arith, size)) in
          let sendable : Pull.IsSendable pull = record {
            src_ip = from.addr_range;
            src_port = from.port_range;
            pay_load_size = omega arith;
          } in
          let (q', left, parsed, got, rest, _, _) =
            pull_framing h pull q inner [] magic sendable valid complete refl
              (payload ∙ ap (λ l. PullPacket.layout h pull ++ l) (sym (append-nil inner))) in
          (q, q', left, run ∙ relayed, to, parsed, got, rest),
      λ over. run ∙ k.1 (omega (arith, size)),
    )

-- For a magic number of 32 bits and fields in range, a rendezvous node turns a PushPacket with a
-- payload of at most 1377 bytes into a packet whose destination is the node that the PushPacket
-- names, without a rendezvous node, and the destination's parse of that packet gives back the payload and the node that sent it, and leaves no byte.
pub push_relay :
    (h : Host) (remote : NodeIdent) (r : PushPacket) (inner : List ℕ)
    → IsU32 h.magic_number
    → IsSendable r
    → InRange remote
    → length inner ≤ 1377
    → (q : RealPacket) × (q' : RealPacket) × (left : RealPacket) × (parse h remote
          (layout h r ++ inner)
        ≡ some q)
      × (q.dest ≡ without_rendv (destination r))
      × (PullPacket.parse h q ≡ (some (q', remote), left))
      × (pay_load q' ≡ inner)
      × (pay_load left ≡ [])
push_relay h remote r inner magic s from fits =
    (relay_lem h remote r inner magic s from (omega (arith, fits))).0 fits

-- For a magic number of 32 bits and fields in range, a rendezvous node forwards no PushPacket
-- whose payload is longer than 1377 bytes (and shorter than 2^31): with the 23 bytes of the
-- PullPacket it does not fit a UDP packet.
pub push_too_long :
    (h : Host) (remote : NodeIdent) (r : PushPacket) (inner : List ℕ)
    → IsU32 h.magic_number
    → IsSendable r
    → InRange remote
    → length inner < 2147483648
    → 1377 < length inner
    → parse h remote (layout h r ++ inner) ≡ none
push_too_long h remote r inner magic s from short over =
    (relay_lem h remote r inner magic s from short).1 over
