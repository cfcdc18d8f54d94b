-- ===== src/Bridge.antt =====
-- The bridge of two connections to the relay: `handle_bridge` of
-- rust/core/src/relay/turn_server.rs and its two clients, `maintain_bridge_listener` and
-- `dial_bridge` of rust/core/src/handle.rs. Texts are lists of characters.
pub mod Commands
pub mod Pairing
pub mod Handshake
pub mod Spliced
pub mod Evicted
mod Examples
