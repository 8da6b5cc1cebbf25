-- ===== src/RealPacket/Appends.antt =====
-- What a run of appends leaves in a packet: all of the bytes behind the old payload, or a packet
-- marked incomplete; and never a byte outside the buffer.
use lib_meridian.Prelude.{
  ℕ, ◌+◌, ◌-◌, ◌<◌, ◌≤◌, ◌≡◌, refl, sym, ap, ◌∙◌, true, false, ◌&&◌, List, [], ◌∷◌, ◌++◌,
  append_assoc, append-nil, length, length-append, take, drop, length-take, length-drop, flat_map,
  take-length-append, leb, arith, Bool-cases, inl, inr,
}
use lib_meridian.RealPacket.{
  RealPacket, IsValid, append_bytes, append_str, memcpy_at, pay_load, ◌⨾◌, for_each,
  new_real_packet,
}
use lib_meridian.Node.{NodeIdentRendv}

-- `q` is what appending `bs` to `p` leaves.
pub record Appended (p : RealPacket) (bs : List ℕ) (q : RealPacket) : Type 0 where
  pub valid : IsValid q
  pub fits : q.complete ≡ (p.complete && leb (p.size + length bs) p.max_packet_size)
  pub grown : q.complete ≡ true → q.size ≡ p.size + length bs
  pub payload : q.complete ≡ true → pay_load q ≡ pay_load p ++ bs
  pub same_max : q.max_packet_size ≡ p.max_packet_size
  pub same_dest : q.dest ≡ p.dest

abbrev pub Appends : (RealPacket → RealPacket) → List ℕ → Type 0
Appends f bs = (p : RealPacket) → IsValid p → Appended p bs (f p)

length-memcpy_at :
    (buf : List ℕ) (offset : ℕ) (bs : List ℕ)
    → offset ≤ length buf
    → (offset + length bs ≤ length (memcpy_at buf offset bs))
      × (length (memcpy_at buf offset bs) ≤ length buf + (offset + length bs - length buf))
unfolding memcpy_at
length-memcpy_at buf offset bs h = omega (
  arith,
  length-append (take offset buf) (bs ++ drop (offset + length bs) buf),
  length-append bs (drop (offset + length bs) buf),
  length-take offset buf,
  length-drop (offset + length bs) buf,
)

take-memcpy_at :
    (buf : List ℕ) (offset : ℕ) (bs : List ℕ)
    → offset ≤ length buf
    → take (offset + length bs) (memcpy_at buf offset bs) ≡ take offset buf ++ bs
unfolding memcpy_at
take-memcpy_at buf offset bs h =
    let e : offset + length bs ≡ length (take offset buf ++ bs) =
      omega (arith, length-append (take offset buf) bs, length-take offset buf) in
    rw (e, ← append_assoc (take offset buf) bs (drop (length (take offset buf ++ bs)) buf))
      (take-length-append (take offset buf ++ bs) _)

-- The two outcomes of an append to a packet that is still complete.
append_bytes_fits :
    (bs : List ℕ) (p : RealPacket)
    → IsValid p
    → p.complete ≡ true
    → p.size + length bs ≤ p.max_packet_size
    → append_bytes bs p ≡ record p {
      packet = memcpy_at p.packet p.size bs;
      size = p.size + length bs;
      complete = true;
    }
unfolding append_bytes
append_bytes_fits bs p v c h = ground arith

append_bytes_full :
    (bs : List ℕ) (p : RealPacket)
    → IsValid p
    → length bs < 2147483648
    → p.complete ≡ true
    → p.max_packet_size < p.size + length bs
    → append_bytes bs p ≡ record p { complete = false }
unfolding append_bytes
append_bytes_full bs p v short c h = ground arith

append_bytes_failed : (bs : List ℕ) (p : RealPacket) → p.complete ≡ false → append_bytes bs p ≡ p
unfolding append_bytes
append_bytes_failed bs p c = rw c

written_IsValid :
    (bs : List ℕ) (p : RealPacket)
    → IsValid p
    → p.size + length bs ≤ p.max_packet_size
    → IsValid (record p {
      packet = memcpy_at p.packet p.size bs;
      size = p.size + length bs;
      complete = true;
    })
written_IsValid bs p v h =
    let m = length-memcpy_at p.packet p.size bs v.written in
    record { written = m.0; bounded = omega arith; narrow = v.narrow }

pub append_bytes-Appends : (bs : List ℕ) → length bs < 2147483648 → Appends (append_bytes bs) bs
unfolding pay_load
append_bytes-Appends bs short p v = elim (Bool-cases p.complete) [
  | inr c ↦ rw (append_bytes_failed bs p c) (record {
    valid = v;
    fits = ground arith;
    grown = λ e. cc;
    payload = λ e. cc;
    same_max = refl;
    same_dest = refl;
  })
  | inl c ↦ elim (Bool-cases (leb (p.size + length bs) p.max_packet_size)) [
    | inl h ↦ rw (append_bytes_fits bs p v c (ground arith)) (record {
      valid = written_IsValid bs p v (ground arith);
      fits = ground arith;
      grown = λ e. refl;
      payload = λ e. take-memcpy_at p.packet p.size bs v.written;
      same_max = refl;
      same_dest = refl;
    })
    | inr h ↦ rw (append_bytes_full bs p v short c (ground arith)) (record {
      valid = record { written = v.written; bounded = v.bounded; narrow = v.narrow };
      fits = ground arith;
      grown = λ e. cc;
      payload = λ e. cc;
      same_max = refl;
      same_dest = refl;
    })
  ]
]

pub Appended-nil : (p : RealPacket) → IsValid p → Appended p [] p
unfolding pay_load
Appended-nil p v = record {
  valid = v;
  fits = ground arith;
  grown = λ e. omega arith;
  payload = λ e. sym (append-nil (take p.size p.packet));
  same_max = refl;
  same_dest = refl;
}

pub append_str-Appends : (bs : List ℕ) → length bs < 2147483648 → Appends (append_str bs) bs
unfolding append_str
append_str-Appends [] short p v =
    let e : append_str [] p ≡ p = ground arith in rw e (Appended-nil p v)
append_str-Appends (b ∷ bs) short p v = elim (Bool-cases p.complete) [
  | inl c ↦
      let e : append_str (b ∷ bs) p ≡ append_bytes (b ∷ bs) p = ground arith in
      rw e (append_bytes-Appends (b ∷ bs) short p v)
  | inr c ↦
      let e : append_str (b ∷ bs) p ≡ append_bytes (b ∷ bs) p =
        rw (append_bytes_failed (b ∷ bs) p c) (ground arith) in
      rw e (append_bytes-Appends (b ∷ bs) short p v)
]

pub Appends-⨾ :
    {f g : RealPacket → RealPacket} {cs bs : List ℕ}
    → Appends f cs
    → Appends g bs
    → Appends (f ⨾ g) (cs ++ bs)
Appends-⨾ {f} {g} {cs} {bs} hf hg p v =
    let a = hf p v in
    let b = hg (f p) a.valid in
    record {
      valid = b.valid;
      fits = ground (arith, a.fits, b.fits, a.grown, a.same_max, length-append cs bs);
      grown = λ e.
          let c : (f p).complete ≡ true = ground (arith, b.fits) in
          omega (arith, a.grown c, b.grown e, length-append cs bs);
      payload = λ e.
          let c : (f p).complete ≡ true = ground (arith, b.fits) in
          b.payload e ∙ ap (λ l. l ++ bs) (a.payload c) ∙ append_assoc (pay_load p) cs bs;
      same_max = b.same_max ∙ a.same_max;
      same_dest = b.same_dest ∙ a.same_dest;
    }

pub for_each-Appends {ℓ} :
    {A : Type ℓ} (f : A → RealPacket → RealPacket) (enc : A → List ℕ) (xs : List A)
    → ((x : A) → Appends (f x) (enc x))
    → Appends (for_each f xs) (flat_map enc xs)
unfolding for_each
for_each-Appends f enc [] h p v = Appended-nil p v
for_each-Appends f enc (x ∷ xs) h p v = Appends-⨾ (h x) (for_each-Appends f enc xs h) p v

-- An empty packet, before the first append.
pub new_real_packet-IsValid :
    (dest : NodeIdentRendv) (size : ℕ) → size < 2147483648 → IsValid (new_real_packet dest size)
unfolding new_real_packet
new_real_packet-IsValid dest size h = record {
  written = omega arith;
  bounded = omega arith;
  narrow = h;
}
