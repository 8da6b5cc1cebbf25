-- ===== src/RealPacket/Resize.antt =====
-- setPayLoadSize after bytes were written to the front of the buffer.
use lib_meridian.Prelude.{
  ℕ, ◌+◌, ◌-◌, ◌≤◌, ◌≡◌, refl, true, List, length, length-append, length-drop, take, drop,
  take-length-append, ℤ, arith,
}
use lib_meridian.RealPacket.{RealPacket, IsValid, memcpy_at, set_pay_load_size, pay_load}

take-memcpy_at_zero : (buf bs : List ℕ) → take (length bs) (memcpy_at buf 0 bs) ≡ bs
unfolding memcpy_at
take-memcpy_at_zero buf bs = take-length-append bs _

length-memcpy_at_zero :
    (buf bs : List ℕ)
    → (length bs ≤ length (memcpy_at buf 0 bs))
      × (length (memcpy_at buf 0 bs) ≤ length buf + (length bs - length buf))
unfolding memcpy_at
length-memcpy_at_zero buf bs =
    omega (arith, length-append bs (drop (0 + length bs) buf), length-drop (0 + length bs) buf)

-- The bytes become the payload where the buffer has room for them.
pub resize_lem :
    (p : RealPacket) (bs : List ℕ)
    → p.complete ≡ true
    → IsValid p
    → length bs ≤ p.max_packet_size
    → let q =
        set_pay_load_size (ℤ.pos (length bs)) (record p { packet = memcpy_at p.packet 0 bs }) in
      (pay_load q ≡ bs) × IsValid q × (q.complete ≡ true) × (q.dest ≡ p.dest)
unfolding set_pay_load_size pay_load
resize_lem p bs c v h =
    let m = length-memcpy_at_zero p.packet bs in
    let r : RealPacket = record p { packet = memcpy_at p.packet 0 bs } in
    let e : set_pay_load_size (ℤ.pos (length bs)) r ≡ record r { size = length bs } =
      ground arith in
    rw e (
      take-memcpy_at_zero p.packet bs,
      record { written = m.0; bounded = omega arith; narrow = v.narrow },
      c,
      refl,
    )
