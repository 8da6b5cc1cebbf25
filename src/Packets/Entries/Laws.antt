-- ===== src/Packets/Entries/Laws.antt =====
-- Each entry is read as it was written.
use lib_meridian.Prelude.{◌%◌, ◌≡◌, arith}
use lib_meridian.Node.{
  NodeIdent, NodeIdentConst, NodeIdentLat, NodeIdentRendv, InRange, IsU16, IsU32,
}
use lib_meridian.Host.{Host}
use lib_meridian.RealPacket.Appends.{Appends, Appends-⨾}
use lib_meridian.BufferWrapper.Reads.{
  Reads, Reads->>=, Reads->>=_last, Reads-pure, net_uint-Reads, net_ushort-Reads,
}
use lib_meridian.Packet.Header.{append_uint-Appends, append_ushort-Appends}
use lib_meridian.Packets.Entries.{
  append_node, read_node, node_bytes, append_node_const, read_node_const, node_const_bytes,
  append_node_lat, read_node_lat, node_lat_bytes, append_node_rendv, read_node_rendv,
  node_rendv_bytes,
}

pub append_node-Appends : (h : Host) (n : NodeIdent) → Appends (append_node h n) (node_bytes n)
unfolding append_node node_bytes
append_node-Appends h n = Appends-⨾ (append_uint-Appends h n.addr) (append_ushort-Appends h n.port)

pub read_node-Reads : (h : Host) (n : NodeIdent) → InRange n → Reads (read_node h) (node_bytes n) n
unfolding read_node node_bytes
read_node-Reads h n r =
    Reads->>= _ (net_uint-Reads h n.addr r.addr_range)
      (Reads->>=_last _ (net_ushort-Reads h n.port r.port_range) (Reads-pure n))

pub record InRangeConst (n : NodeIdentConst) : Type 0 where
  pub addr_range : IsU32 n.addr
  pub port_range : IsU16 n.port
  pub latency_range : IsU32 n.latency_const_ms

pub append_node_const-Appends :
    (h : Host) (n : NodeIdentConst) → Appends (append_node_const h n) (node_const_bytes n)
unfolding append_node_const node_const_bytes
append_node_const-Appends h n =
    Appends-⨾ (append_uint-Appends h n.addr)
      (Appends-⨾ (append_ushort-Appends h n.port) (append_uint-Appends h n.latency_const_ms))

pub read_node_const-Reads :
    (h : Host) (n : NodeIdentConst)
    → InRangeConst n
    → Reads (read_node_const h) (node_const_bytes n) n
unfolding read_node_const node_const_bytes
read_node_const-Reads h n r = Reads->>= _ (net_uint-Reads h n.addr r.addr_range) (
    Reads->>= _ (net_ushort-Reads h n.port r.port_range)
      (Reads->>=_last _ (net_uint-Reads h n.latency_const_ms r.latency_range) (Reads-pure n)))

pub record InRangeLat (n : NodeIdentLat) : Type 0 where
  pub addr_range : IsU32 n.addr
  pub port_range : IsU16 n.port
  pub latency_range : IsU32 n.latency_us

pub append_node_lat-Appends :
    (h : Host) (n : NodeIdentLat) → Appends (append_node_lat h n) (node_lat_bytes n)
unfolding append_node_lat node_lat_bytes
append_node_lat-Appends h n =
    Appends-⨾ (append_uint-Appends h n.addr)
      (Appends-⨾ (append_ushort-Appends h n.port) (append_uint-Appends h n.latency_us))

pub read_node_lat-Reads :
    (h : Host) (n : NodeIdentLat) → InRangeLat n → Reads (read_node_lat h) (node_lat_bytes n) n
unfolding read_node_lat node_lat_bytes
read_node_lat-Reads h n r = Reads->>= _ (net_uint-Reads h n.addr r.addr_range) (
    Reads->>= _ (net_ushort-Reads h n.port r.port_range)
      (Reads->>=_last _ (net_uint-Reads h n.latency_us r.latency_range) (Reads-pure n)))

pub record InRangeRendv (n : NodeIdentRendv) : Type 0 where
  pub addr_range : IsU32 n.addr
  pub port_range : IsU16 n.port
  pub addr_rendv_range : IsU32 n.addr_rendv
  pub port_rendv_range : IsU16 n.port_rendv

pub append_node_rendv-Appends :
    (h : Host) (n : NodeIdentRendv) → Appends (append_node_rendv h n) (node_rendv_bytes n)
unfolding append_node_rendv node_rendv_bytes
append_node_rendv-Appends h n = Appends-⨾ (append_uint-Appends h n.addr) (
    Appends-⨾ (append_ushort-Appends h n.port) (
      Appends-⨾ (append_uint-Appends h n.addr_rendv)
        (append_ushort-Appends h (n.port_rendv % 65536))))

pub read_node_rendv-Reads :
    (h : Host) (n : NodeIdentRendv)
    → InRangeRendv n
    → Reads (read_node_rendv h) (node_rendv_bytes n) n
unfolding read_node_rendv node_rendv_bytes
read_node_rendv-Reads h n r =
    let e : n.port_rendv % 65536 ≡ n.port_rendv = omega (arith, r.port_rendv_range) in
    rw e (
      Reads->>= _ (net_uint-Reads h n.addr r.addr_range) (
        Reads->>= _ (net_ushort-Reads h n.port r.port_range) (
          Reads->>= _ (net_uint-Reads h n.addr_rendv r.addr_rendv_range) (
            Reads->>=_last _ (net_ushort-Reads h n.port_rendv r.port_rendv_range) (Reads-pure n)))))
