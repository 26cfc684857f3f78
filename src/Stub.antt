-- ===== src/Stub.antt =====
-- The ingest server of crates/stub-ingest/src/main.rs.
pub mod Headers
pub mod Files
pub mod Server
pub mod Startup
pub mod Accepts
pub mod Captures
pub mod Answers
