-- ===== src/Packets.antt =====
-- The packet classes of Marshal.h, one module for each.
pub mod Entries
pub mod ReqGeneric
pub mod ReqConstraintGeneric
pub mod ReqClosestGeneric
pub mod GossipPacketGeneric
pub mod RetPing
pub mod RetError
pub mod RetInfo
pub mod RetResponse
pub mod Control
pub mod PullPacket
pub mod PushPacket
