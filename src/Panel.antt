-- ===== src/Panel.antt =====
-- rust/relay-panel: the administration of a relay.
pub mod Sessions
pub mod Discovery
pub mod Logins
pub mod Agreement
mod Examples
