-- ===== src/Server.antt =====
-- rust/core/src/server.rs: the HTTP server that receives files.
pub mod Ports
pub mod Listener
pub mod Paths
pub mod Files
pub mod Routes
pub mod Upload
pub mod PortSearch
pub mod Serving
pub mod Names
pub mod Inside
pub mod Stored
pub mod Step
pub mod Completion
pub mod Consent
mod Examples
mod UploadExamples
