-- ===== src/TurnServer.antt =====
-- rust/core/src/relay/turn_server.rs: the TURN server over TCP, without its bridge and HTTP sides.
pub mod State
pub mod Auth
pub mod Secrets
pub mod Replies
pub mod Allocations
pub mod Connecting
pub mod Connection
pub mod Permissions
pub mod Rounds
pub mod Refusals
pub mod Errors
pub mod Binding
pub mod Accepting
pub mod SignedRequests
mod Examples
