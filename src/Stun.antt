-- ===== src/Stun.antt =====
-- rust/core/src/relay/stun.rs: the STUN messages that the relay's client and server exchange.
pub mod Types
pub mod TypeField
pub mod Codec
pub mod Fields
pub mod Ensures
pub mod Parts
pub mod Reads
pub mod RoundTrip
pub mod Safety
mod Examples
