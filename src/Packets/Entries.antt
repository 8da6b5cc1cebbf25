-- ===== src/Packets/Entries.antt =====
-- The entries of the lists that packets carry, as each packet class of Marshal.h writes them in
-- createRealPacket and reads them in parse.
pub mod Laws
use lib_meridian.Prelude.{ℕ, ◌%◌, List, ◌++◌, length}
use lib_meridian.Node.{NodeIdent, NodeIdentConst, NodeIdentLat, NodeIdentRendv}
use lib_meridian.Host.{Host, htonl, htons, be16, be32}
use lib_meridian.RealPacket.{RealPacket, append_uint, append_ushort, ◌⨾◌}
use lib_meridian.BufferWrapper.{Reader, pure, ◌>>=◌, net_uint, net_ushort}

-- The count of a vector is cut to a uint32_t, and bounds the loop over it.
abbrev pub count32 {ℓ} : {A : Type ℓ} → List A → ℕ
count32 xs = length xs % 4294967296

-- An address and a port.
unfoldable pub append_node : Host → NodeIdent → RealPacket → RealPacket
append_node h tmp =
    append_uint h.order (htonl h.order tmp.addr) ⨾ append_ushort h.order (htons h.order tmp.port)

unfoldable pub read_node : Host → Reader NodeIdent
read_node h = do addr ← net_uint h; port ← net_ushort h; pure (record { addr = addr; port = port })

unfoldable pub node_bytes : NodeIdent → List ℕ
node_bytes n = be32 n.addr ++ be16 n.port

-- A node with the latency that it must be within.
unfoldable pub append_node_const : Host → NodeIdentConst → RealPacket → RealPacket
append_node_const h tmp =
    append_uint h.order (htonl h.order tmp.addr)
    ⨾ append_ushort h.order (htons h.order tmp.port)
    ⨾ append_uint h.order (htonl h.order tmp.latency_const_ms)

unfoldable pub read_node_const : Host → Reader NodeIdentConst
read_node_const h = do
  addr ← net_uint h
  port ← net_ushort h
  latency_const_ms ← net_uint h
  pure (record { addr = addr; port = port; latency_const_ms = latency_const_ms })

unfoldable pub node_const_bytes : NodeIdentConst → List ℕ
node_const_bytes n = be32 n.addr ++ (be16 n.port ++ be32 n.latency_const_ms)

-- A node with a measured latency.
unfoldable pub append_node_lat : Host → NodeIdentLat → RealPacket → RealPacket
append_node_lat h tmp =
    append_uint h.order (htonl h.order tmp.addr)
    ⨾ append_ushort h.order (htons h.order tmp.port)
    ⨾ append_uint h.order (htonl h.order tmp.latency_us)

unfoldable pub read_node_lat : Host → Reader NodeIdentLat
read_node_lat h = do
  addr ← net_uint h
  port ← net_ushort h
  latency_us ← net_uint h
  pure (record { addr = addr; port = port; latency_us = latency_us })

unfoldable pub node_lat_bytes : NodeIdentLat → List ℕ
node_lat_bytes n = be32 n.addr ++ (be16 n.port ++ be32 n.latency_us)

-- A node with its rendezvous node. The port of the latter is a uint32_t cut to a uint16_t.
unfoldable pub append_node_rendv : Host → NodeIdentRendv → RealPacket → RealPacket
append_node_rendv h tmp =
    append_uint h.order (htonl h.order tmp.addr)
    ⨾ append_ushort h.order (htons h.order tmp.port)
    ⨾ append_uint h.order (htonl h.order tmp.addr_rendv)
    ⨾ append_ushort h.order (htons h.order (tmp.port_rendv % 65536))

unfoldable pub read_node_rendv : Host → Reader NodeIdentRendv
read_node_rendv h = do
  addr ← net_uint h
  port ← net_ushort h
  r_addr ← net_uint h
  r_port ← net_ushort h
  pure (record { addr = addr; port = port; addr_rendv = r_addr; port_rendv = r_port })

unfoldable pub node_rendv_bytes : NodeIdentRendv → List ℕ
node_rendv_bytes n =
    be32 n.addr ++ (be16 n.port ++ (be32 n.addr_rendv ++ be16 (n.port_rendv % 65536)))
