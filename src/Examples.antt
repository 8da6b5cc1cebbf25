-- ===== src/Examples.antt =====
-- Runs of the theorems at concrete inputs, and what they need.
mod Frames
mod Tunnel
mod Rings
mod Timeouts
mod Latencies
mod Queries
mod Protocols
