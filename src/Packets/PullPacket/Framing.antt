-- ===== src/Packets/PullPacket/Framing.antt =====
-- Messages are taken off the front of the bytes received, one by one.
use lib_meridian.Prelude.{
  ℕ, ◌+◌, ◌-◌, ◌<◌, ◌≤◌, ◌≡◌, drop, Bool-cases, inl, inr, refl, sym, ap, ◌∙◌, true, false, List, [],
  ◌∷◌, ◌++◌, append_assoc, length, length-append, take-length-append, drop-length-append,
  length-take, some, none, ltb, arith, ℤ, if◌then◌else◌,
}
use lib_meridian.Node.{NodeIdent, IsU16, IsU32}
use lib_meridian.Host.{Host}
use lib_meridian.Host.Order.{length-be16, length-be32}
use lib_meridian.RealPacket.{RealPacket, IsValid, pay_load, set_pay_load_size, new_real_packet}
use lib_meridian.RealPacket.Appends.{Appends-⨾, new_real_packet-IsValid}
use lib_meridian.RealPacket.Resize.{resize_lem}
use lib_meridian.BufferWrapper.{new_buffer_wrapper, remain_buf_size, return_pos, advance}
use lib_meridian.BufferWrapper.Reads.{
  Reads, Reads->>=, Reads->>=_last, Reads-pure, Reads-same, retrieve_char-Reads, net_uint-Reads,
  net_ushort-Reads, error-Reads, new_buffer_wrapper-At,
}
use lib_meridian.Packet.{pull}
use lib_meridian.Packet.Header.{
  append_char-Appends, append_uint-Appends, append_ushort-Appends, write_id-Appends,
  skip_query_id-Reads, Created, completed-Created,
}
use lib_meridian.Packets.PullPacket.Waiting.{parse-short}
use lib_meridian.Packets.PullPacket.{
  PullPacket, create_real_packet, parse_head, extract, consume, take_message, parse, layout,
}

-- Each field is in the range of its machine type.
pub record IsSendable (r : PullPacket) : Type 0 where
  pub src_ip : IsU32 r.src_ip
  pub src_port : IsU16 r.src_port
  pub pay_load_size : IsU32 r.pay_load_size

pub layout-Created :
    (h : Host) (r : PullPacket) (p : RealPacket)
    → IsValid p
    → Created p (layout h r) (create_real_packet h r p)
unfolding create_real_packet layout
layout-Created h r p v =
    completed-Created _ _ p
      (Appends-⨾ (append_char-Appends pull) (
        write_id-Appends h r.req_id (
          Appends-⨾ (append_uint-Appends h r.src_ip) (
            Appends-⨾ (append_ushort-Appends h r.src_port)
              (append_uint-Appends h r.pay_load_size)))))
      v

abbrev pub source : PullPacket → NodeIdent
source r = record { addr = r.src_ip; port = r.src_port }

parse_head-layout :
    (h : Host) (r : PullPacket)
    → IsU32 h.magic_number
    → IsSendable r
    → Reads (parse_head h) (layout h r) (some (source r, r.pay_load_size))
unfolding parse_head layout
parse_head-layout h r magic s = Reads->>= _ (retrieve_char-Reads pull) (
    Reads->>= _ error-Reads (
      Reads->>= _ (skip_query_id-Reads h r.req_id) (
        Reads->>= _ (net_uint-Reads h h.magic_number magic) (
          Reads->>= _ (net_uint-Reads h r.src_ip s.src_ip) (
            Reads->>= _ (net_ushort-Reads h r.src_port s.src_port) (
              Reads->>=_last _ (net_uint-Reads h r.pay_load_size s.pay_load_size) (
                Reads->>= _ error-Reads (
                  Reads-same h.magic_number _
                    (Reads-pure (some (source r, r.pay_load_size)))))))))))

pub length-layout : (h : Host) (r : PullPacket) → length (layout h r) ≡ 23
unfolding layout
length-layout h r = simp (length-append, length-be32, length-be16) refl

-- The new packet holds the bytes asked for.
extract_lem :
    (front inner rest : List ℕ)
    → length inner < 2147483648
    → pay_load (extract (front ++ (inner ++ rest)) (length front) (length inner)) ≡ inner
unfolding extract new_real_packet
extract_lem front inner rest short =
    rw (drop-length-append front (inner ++ rest), take-length-append inner rest)
      (resize_lem _ inner refl (new_real_packet-IsValid _ (length inner) short) (omega arith)).0

size-length : (p : RealPacket) → IsValid p → length (pay_load p) ≡ p.size
unfolding pay_load
size-length p v = omega (arith, length-take p.size p.packet, v.written)

-- What stands behind the message moves to the front.
consume_lem :
    (p : RealPacket) (used rest : List ℕ)
    → p.complete ≡ true
    → IsValid p
    → pay_load p ≡ used ++ rest
    → let q = consume (length used) p in
      (pay_load q ≡ rest) × IsValid q × (q.complete ≡ true) × (q.dest ≡ p.dest)
unfolding consume
consume_lem p used rest c v e =
    let n : p.size - length used ≡ length rest =
      omega (arith, size-length p v, ap length e, length-append used rest) in
    rw (n, e, drop-length-append used rest)
      (resize_lem p rest c v (omega (arith, n, v.written, v.bounded)))

drained_lem :
    (p : RealPacket)
    → p.complete ≡ true
    → IsValid p
    → let q = set_pay_load_size (ℤ.pos 0) p in (pay_load q ≡ []) × IsValid q × (q.complete ≡ true)
unfolding set_pay_load_size pay_load
drained_lem p c v =
    let e : set_pay_load_size (ℤ.pos 0) p ≡ record p { size = 0 } = ground arith in
    rw e (refl, record { written = omega arith; bounded = v.bounded; narrow = v.narrow }, c)

parse_head_run :
    (h : Host) (r : PullPacket) (p : RealPacket) (more : List ℕ)
    → IsU32 h.magic_number
    → IsSendable r
    → pay_load p ≡ layout h r ++ more
    → parse h p
      ≡ take_message p
          (advance (length (layout h r)) (new_buffer_wrapper (pay_load p)))
          (some (source r, r.pay_load_size))
unfolding parse
parse_head_run h r p more magic s e = rw e (
    ap (λ t. take_message p t.1 t.0)
      ((parse_head-layout h r magic s).run (new_buffer_wrapper (layout h r ++ more)) more
        (new_buffer_wrapper-At (layout h r ++ more))))

remain_lem :
    (h : Host) (r : PullPacket) (p : RealPacket) (more : List ℕ)
    → pay_load p ≡ layout h r ++ more
    → length (pay_load p) - (0 + length (layout h r)) ≡ length more
remain_lem h r p more e = omega (arith, ap length e, length-append (layout h r) more)

parse_behind_header :
    (h : Host) (r : PullPacket) (p : RealPacket) (part : List ℕ)
    → IsU32 h.magic_number
    → IsSendable r
    → pay_load p ≡ layout h r ++ part
    → length part < r.pay_load_size
    → parse h p ≡ (none, p)
unfolding take_message remain_buf_size return_pos new_buffer_wrapper
parse_behind_header h r p part magic s e short =
    parse_head_run h r p part magic s e ∙ ground (arith, remain_lem h r p part e, short)

-- Two ways to split a list: the longer front starts with the shorter one.
append_front :
    (front bs missing more : List ℕ)
    → bs ++ missing ≡ front ++ more
    → length front ≤ length bs
    → bs ≡ front ++ drop (length front) bs
append_front [] bs missing more e k = refl
append_front (x ∷ front) [] missing more e k = absurd (omega (arith, k))
append_front (x ∷ front) (b ∷ bs) missing more e k =
    cc (e, append_front front bs missing more (cc (e)) (omega (arith, k)))

-- For a magic number of 32 bits and fields in range, a packet that holds the start of a message and
-- not yet all of it, be it a part of the header or of the payload, is left alone: nothing is
-- returned and the packet stays as it is.
pub parse_partial :
    (h : Host) (r : PullPacket) (p : RealPacket) (inner missing : List ℕ)
    → IsU32 h.magic_number
    → IsSendable r
    → r.pay_load_size ≡ length inner
    → pay_load p ++ missing ≡ layout h r ++ inner
    → 1 ≤ length missing
    → parse h p ≡ (none, p)
parse_partial h r p inner missing magic s n e k = elim (Bool-cases (ltb (length (pay_load p)) 23)) [
  | inl short ↦ parse-short h p (ground (arith, short))
  | inr long ↦
      let front =
        append_front (layout h r) (pay_load p) missing inner e
          (ground (arith, long, length-layout h r)) in
      parse_behind_header h r p (drop (length (layout h r)) (pay_load p)) magic s front (
        omega (
          arith,
          ap length front,
          length-append (layout h r) (drop (length (layout h r)) (pay_load p)),
          ap length e,
          length-append (pay_load p) missing,
          length-append (layout h r) inner,
          n,
          k,
        ))
]

left_lem :
    (p : RealPacket) (front inner rest : List ℕ)
    → p.complete ≡ true
    → IsValid p
    → pay_load p ≡ front ++ (inner ++ rest)
    → let q =
        if ltb (length inner) (length (inner ++ rest))
        then consume (0 + length front + length inner) p
        else set_pay_load_size (ℤ.pos 0) p in
      (pay_load q ≡ rest) × IsValid q × (q.complete ≡ true)
left_lem p front inner [] c v e =
    let t : ltb (length inner) (length (inner ++ [])) ≡ false =
      ground (arith, length-append inner []) in
    rw t (drained_lem p c v)
left_lem p front inner (x ∷ xs) c v e =
    let t : ltb (length inner) (length (inner ++ (x ∷ xs))) ≡ true =
      ground (arith, length-append inner (x ∷ xs)) in
    let u : 0 + length front + length inner ≡ length (front ++ inner) =
      omega (arith, length-append front inner) in
    let l =
      consume_lem p (front ++ inner) (x ∷ xs) c v (e ∙ sym (append_assoc front inner (x ∷ xs))) in
    rw (t, u) (l.0, l.1, l.2)

extracted_lem :
    (p : RealPacket) (front inner rest : List ℕ)
    → length inner < 2147483648
    → pay_load p ≡ front ++ (inner ++ rest)
    → pay_load (extract (pay_load p) (0 + length front) (length inner)) ≡ inner
extracted_lem p front inner rest short e =
    let u : 0 + length front ≡ length front = omega arith in
    rw (e, u) (extract_lem front inner rest short)

-- For a magic number of 32 bits and fields in range, where a valid and complete packet starts
-- with the layout of a PullPacket and the bytes of its payload, parse returns that payload as a
-- packet of its own, with the node that sent it, and leaves a valid and complete packet with
-- exactly the bytes behind the message.
pub pull_framing :
    (h : Host) (r : PullPacket) (p : RealPacket) (inner rest : List ℕ)
    → IsU32 h.magic_number
    → IsSendable r
    → IsValid p
    → p.complete ≡ true
    → r.pay_load_size ≡ length inner
    → pay_load p ≡ layout h r ++ (inner ++ rest)
    → (q : RealPacket) × (p' : RealPacket) × (parse h p ≡ (some (q, source r), p'))
      × (pay_load q ≡ inner)
      × (pay_load p' ≡ rest)
      × IsValid p'
      × (p'.complete ≡ true)
unfolding take_message remain_buf_size return_pos new_buffer_wrapper
pull_framing h r p inner rest magic s v c n e =
    let front = layout h r in
    let short : length inner < 2147483648 = omega (
      arith,
      size-length p v,
      ap length e,
      length-append front (inner ++ rest),
      length-append inner rest,
      v.written,
      v.bounded,
      v.narrow,
    ) in
    let l = left_lem p front inner rest c v e in
    (
      extract (pay_load p) (0 + length front) (length inner),
      (if ltb (length inner) (length (inner ++ rest))
          then consume (0 + length front + length inner) p
          else set_pay_load_size (ℤ.pos 0) p),
      parse_head_run h r p (inner ++ rest) magic s e
          ∙ ground (arith, n, remain_lem h r p (inner ++ rest) e, length-append inner rest),
      extracted_lem p front inner rest short e,
      l.0,
      l.1,
      l.2,
    )
