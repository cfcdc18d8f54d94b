-- ===== src/TurnClient.antt =====
-- rust/core/src/relay/turn.rs: what the relay's client builds and reads; its sockets are left out.
pub mod Requests
pub mod Challenge
mod Examples
