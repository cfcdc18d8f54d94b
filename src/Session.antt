-- ===== src/Session.antt =====
-- rust/core/src/session.rs: the actor that owns every transfer session.
pub mod State
pub mod Transitions
pub mod Create
pub mod Decide
pub mod Actor
pub mod Step
pub mod Move
pub mod Capacity
pub mod Answers
pub mod Consent
pub mod Lifecycle
pub mod Tokens
pub mod Accepting
pub mod Finishing
mod Examples
pub mod Unsettled
pub mod Progress
pub mod Uploading
