-- ===== src/Device.antt =====
-- rust/core/src/device.rs: the actor that holds the known devices.
pub mod Actor
pub mod Rendering
pub mod Lookup
pub mod Reannounce
mod Examples
