-- ===== src/Heartbeat.antt =====
-- The answer to a heartbeat: `relay_discovery` of rust/core/src/handle.rs.
mod Examples
pub mod LanPeers
pub mod Merge
