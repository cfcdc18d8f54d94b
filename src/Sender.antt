-- ===== src/Sender.antt =====
-- The sending side: `run_send_driver` of rust/core/src/handle.rs.
pub mod Completion
pub mod Driver
mod Examples
pub mod LeftOut
pub mod Sending
pub mod Waiting
