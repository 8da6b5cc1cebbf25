-- ===== src/RealPacket.antt =====
-- class RealPacket of Marshal.h: an outgoing packet under construction.
-- The malloc'd buffer is the list of its cells from the first to the last that was ever written;
-- the cells behind those hold no known value. `size` bytes of it are the payload.
pub mod Appends
pub mod Resize
use lib_meridian.Prelude.{
  ℕ, ◌+◌, ◌%◌, ◌<◌, ◌≤◌, Bool, true, false, not, ◌||◌, List, [], ◌∷◌, ◌++◌, length, take, drop, leb,
  ltb, ◌==◌, nat_eq, if◌then◌else◌, ℤ, pos, negsuc,
}
use lib_meridian.Node.{NodeIdent, NodeIdentRendv}
use lib_meridian.Host.{Endian, store16, store32}

pub record RealPacket : Type 0 where
  pub packet : List ℕ
  pub size : ℕ
  pub complete : Bool
  pub dest : NodeIdentRendv
  pub max_packet_size : ℕ
  pub pos : ℕ

-- What a function of the source that returns 0 or -1 answers.
pub data Status : Type 0 where
  success failure : Status

abbrev pub max_udp_packet_size : ℕ
max_udp_packet_size = 1400

unfoldable pub new_real_packet : NodeIdentRendv → ℕ → RealPacket
new_real_packet in_dest packet_size = record {
  packet = [];
  size = 0;
  complete = true;
  dest = in_dest;
  max_packet_size = packet_size;
  pos = 0;
}

-- The constructors that take a NodeIdent.
unfoldable pub without_rendv : NodeIdent → NodeIdentRendv
without_rendv n = record { addr = n.addr; port = n.port; addr_rendv = 0; port_rendv = 0 }

-- verifySpace, over uint32_t.
unfoldable pub verify_space : RealPacket → ℕ → Bool
verify_space p type_size = not (ltb p.max_packet_size ((p.size + type_size) % 4294967296))

-- memcpy into the buffer.
unfoldable pub memcpy_at : List ℕ → ℕ → List ℕ → List ℕ
memcpy_at buf offset bs = take offset buf ++ (bs ++ drop (offset + length bs) buf)

-- The body that the append functions share.
unfoldable pub append_bytes : List ℕ → RealPacket → RealPacket
unfolding verify_space memcpy_at
append_bytes bs p =
    if not p.complete
    then p
    else if verify_space p (length bs)
    then record p {
      packet = memcpy_at p.packet p.size bs;
      size = p.size + length bs;
      complete = true;
    }
    else record p { complete = false }

unfoldable pub append_int : Endian → ℕ → RealPacket → RealPacket
append_int e value = append_bytes (store32 e value)

unfoldable pub append_uint : Endian → ℕ → RealPacket → RealPacket
append_uint e value = append_bytes (store32 e value)

unfoldable pub append_ushort : Endian → ℕ → RealPacket → RealPacket
append_ushort e value = append_bytes (store16 e value)

unfoldable pub append_char : ℕ → RealPacket → RealPacket
append_char value = append_bytes (value ∷ [])

-- `in_str` holds the in_size bytes.
unfoldable pub append_str : List ℕ → RealPacket → RealPacket
append_str in_str p = if not p.complete || length in_str == 0 then p else append_bytes in_str p

unfoldable pub pay_load : RealPacket → List ℕ
pay_load p = take p.size p.packet

unfoldable pub append_packet : RealPacket → RealPacket → RealPacket
append_packet in_packet p =
    if not p.complete || in_packet.size == 0 then p else append_bytes (pay_load in_packet) p

unfoldable pub set_pay_load_size : ℤ → RealPacket → RealPacket
set_pay_load_size (ℤ.pos val) p =
    if not p.complete
    then p
    else if ltb p.max_packet_size val
    then record p { complete = false }
    else record p { size = val }
set_pay_load_size (negsuc val) p = if not p.complete then p else record p { complete = false }

unfoldable pub incr_pos : ℤ → RealPacket → RealPacket
incr_pos (ℤ.pos val) p = if ltb 0 val then record p { pos = p.pos + val } else p
incr_pos (negsuc val) p = p

-- A statement after a statement.
infixr 60 ◌⨾◌
abbrev pub ◌⨾◌ : (RealPacket → RealPacket) → (RealPacket → RealPacket) → RealPacket → RealPacket
◌⨾◌ f g p = g (f p)

-- A loop over a vector.
unfoldable pub for_each {ℓ} :
    {A : Type ℓ} → (A → RealPacket → RealPacket) → List A → RealPacket → RealPacket
for_each f [] p = p
for_each f (x ∷ xs) p = for_each f xs (f x p)

-- `if (!inPacket.completeOkay()) return -1; return 0;`
unfoldable pub completed : RealPacket → Status × RealPacket
completed p = if not p.complete then (failure, p) else (success, p)

-- The payload lies within the cells written, and those within the buffer. The sizes fit an int.
pub record IsValid (p : RealPacket) : Type 0 where
  pub written : p.size ≤ length p.packet
  pub bounded : length p.packet ≤ p.max_packet_size
  pub narrow : p.max_packet_size < 2147483648
