-- ===== src/Tui.antt =====
-- rust/cli/src/state.rs: what the text interface shows.
pub mod View
pub mod App
pub mod Ids
pub mod Screen
pub mod Cleared
mod Examples
