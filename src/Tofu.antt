-- ===== src/Tofu.antt =====
-- rust/core/src/relay/tls.rs: the certificates that are pinned on first use.
pub mod Store
pub mod Pins
mod Examples
