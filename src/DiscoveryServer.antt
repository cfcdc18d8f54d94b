-- ===== src/DiscoveryServer.antt =====
-- rust/core/src/relay/discovery_server.rs: the registry through which devices find each other.
pub mod Registry
pub mod Ghosts
pub mod OnePerAddress
pub mod Outcomes
mod Examples
