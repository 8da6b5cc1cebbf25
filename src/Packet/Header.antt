-- ===== src/Packet/Header.antt =====
-- The headers are written and read in the same layout, and the 64-bit ids survive their split.
use lib_meridian.Prelude.{
  ℕ, ◌+◌, ◌/◌, ◌%◌, ◌≤◌, ◌≡◌, ◌↔◌, refl, sym, subst, ◌∙◌, ap, true, List, [], ◌∷◌, ◌++◌, length,
  append_assoc, append-nil, ◌^◌, arith, nat_eq,
}
use lib_meridian.Node.{IsU64}
use lib_meridian.Host.{Host, be16, be32, htons, htonl}
use lib_meridian.Host.Order.{store16-htons, store32-htonl, length-be16, length-be32}
use lib_meridian.RealPacket.{
  RealPacket, Status, success, failure, IsValid, append_uint, append_ushort, append_char, completed,
  pay_load, ◌⨾◌,
}
use lib_meridian.RealPacket.Appends.{Appended, Appends, append_bytes-Appends, Appends-⨾}
use lib_meridian.BufferWrapper.{Reader, new_buffer_wrapper}
use lib_meridian.BufferWrapper.Reads.{
  Reads, Reads-result, net_uint-Reads, retrieve_uint-Reads, Reads->>=, Reads->>=_last, Reads-pure,
}
use lib_meridian.Packet.{to32, to64, write_id, write_rendv, id_bytes, read_query_id, skip_query_id}

pub append_char-Appends : (c : ℕ) → Appends (append_char c) (c ∷ [])
unfolding append_char
append_char-Appends c = append_bytes-Appends (c ∷ []) (omega arith)

pub append_uint-Appends :
    (h : Host) (v : ℕ) → Appends (append_uint h.order (htonl h.order v)) (be32 v)
unfolding append_uint
append_uint-Appends h v =
    rw store32-htonl (append_bytes-Appends (be32 v) (rw length-be32 (omega arith)))

pub append_ushort-Appends :
    (h : Host) (v : ℕ) → Appends (append_ushort h.order (htons h.order v)) (be16 v)
unfolding append_ushort
append_ushort-Appends h v =
    rw store16-htons (append_bytes-Appends (be16 v) (rw length-be16 (omega arith)))

-- The three words of write_id and the two fields of write_rendv, in front of what follows.
pub write_id-Appends :
    (h : Host) (id : ℕ) {g : RealPacket → RealPacket} {bs : List ℕ}
    → Appends g bs
    → Appends (write_id h id ⨾ g) (id_bytes id ++ (be32 h.magic_number ++ bs))
unfolding write_id to32
write_id-Appends h id {bs = bs} hg =
    rw (append_assoc (be32 (to32 id).0) (be32 (to32 id).1) (be32 h.magic_number ++ bs)) (
      Appends-⨾ (append_uint-Appends h (to32 id).0) (
        Appends-⨾ (append_uint-Appends h (to32 id).1)
          (Appends-⨾ (append_uint-Appends h h.magic_number) hg)))

pub write_id_last-Appends :
    (h : Host) (id : ℕ) → Appends (write_id h id) (id_bytes id ++ be32 h.magic_number)
unfolding write_id to32
write_id_last-Appends h id =
    rw (append_assoc (be32 (to32 id).0) (be32 (to32 id).1) (be32 h.magic_number)) (
      Appends-⨾ (append_uint-Appends h (to32 id).0)
        (Appends-⨾ (append_uint-Appends h (to32 id).1) (append_uint-Appends h h.magic_number)))

pub write_rendv-Appends :
    (h : Host) (addr port : ℕ) {g : RealPacket → RealPacket} {bs : List ℕ}
    → Appends g bs
    → Appends (write_rendv h addr port ⨾ g) (be32 addr ++ (be16 port ++ bs))
unfolding write_rendv
write_rendv-Appends h addr port hg =
    Appends-⨾ (append_uint-Appends h addr) (Appends-⨾ (append_ushort-Appends h port) hg)

-- Splitting an id and joining it again gives the id.
to64_halves : (id : ℕ) → IsU64 id → to64 (id / 2 ^ 32 % 2 ^ 32) (id % 2 ^ 32) ≡ id
unfolding to64
to64_halves id h = omega arith

pub to64-to32 : (id : ℕ) → IsU64 id → to64 (to32 id).0 (to32 id).1 ≡ id
unfolding to64 to32
to64-to32 id h = omega arith

pub read_query_id-Reads : (h : Host) (id : ℕ) → IsU64 id → Reads (read_query_id h) (id_bytes id) id
unfolding read_query_id
read_query_id-Reads h id hid =
    (Reads->>= _ (net_uint-Reads h (id / 2 ^ 32 % 2 ^ 32) (omega arith)) (
      Reads->>=_last _ (net_uint-Reads h (id % 2 ^ 32) (omega arith))
        (rw (to64_halves id hid) (Reads-pure id))))

pub skip_query_id-Reads : (h : Host) (id : ℕ) → Reads (skip_query_id h) (id_bytes id) tt
unfolding skip_query_id
skip_query_id-Reads h id =
    Reads->>= _ (retrieve_uint-Reads h.order (id / 2 ^ 32 % 2 ^ 32))
      (Reads->>=_last _ (retrieve_uint-Reads h.order (id % 2 ^ 32)) (Reads-pure tt))

-- A creation succeeds exactly when the bytes fit, and then they stand behind the old payload.
pub record Created (p : RealPacket) (bs : List ℕ) (r : Status × RealPacket) : Type 0 where
  pub appended : Appended p bs r.1
  pub agrees : (r.0 ≡ success) ↔ (r.1.complete ≡ true)
  pub succeeds : (r.0 ≡ success) ↔ ((p.complete ≡ true) × (p.size + length bs ≤ p.max_packet_size))
  pub payload : r.0 ≡ success → pay_load r.1 ≡ pay_load p ++ bs

completed-Appended :
    {p : RealPacket} {bs : List ℕ} (q : RealPacket)
    → Appended p bs q
    → Appended p bs (completed q).1
unfolding completed
completed-Appended {p = p} {bs} q a =
    let e : (completed q).1 ≡ q = ground arith in subst (Appended p bs) (sym e) a

pub completed-Created :
    (f : RealPacket → RealPacket) (bs : List ℕ) (p : RealPacket)
    → Appends f bs
    → IsValid p
    → Created p bs (completed (f p))
unfolding completed
completed-Created f bs p hf v =
    let a = hf p v in
    record {
      appended = completed-Appended (f p) a;
      agrees = ground arith;
      succeeds = ground (arith, a.fits);
      payload = ground (arith, a.payload);
    }

-- What a creation leaves in an empty packet reads back.
pub Created-parse {ℓ} :
    {A : Type ℓ} {p : RealPacket} {bs : List ℕ} {r : Status × RealPacket} {m : Reader A} {a : A}
    → Created p bs r
    → Reads m bs a
    → pay_load p ≡ []
    → r.0 ≡ success
    → (m (new_buffer_wrapper (pay_load r.1))).0 ≡ a
Created-parse {p = p} {bs} {r} {m} {a} c h empty ok =
    let e : pay_load r.1 ≡ bs ++ [] =
      c.payload ok ∙ ap (λ l. l ++ bs) empty ∙ sym (append-nil bs) in
    rw e (Reads-result [] h)

-- The two ends of a creation: there is room and what was written reads back, or there is none.
pub data Sent (room parsed : Type 0) (s : Status) : Type 0 where
  sent : room → s ≡ success → parsed → Sent room parsed s
  refused : ¬ room → s ≡ failure → Sent room parsed s

pub either_end :
    {room parsed : Type 0} (s : Status)
    → (s ≡ success ↔ room)
    → (s ≡ success → parsed)
    → Sent room parsed s
either_end success e f = sent (e.0 refl) refl (f refl)
either_end failure e f = refused (λ r. absurd (cc (e.1 r))) refl
