-- ===== src/Config.antt =====
-- config.rs: what the INI values resolve to. A text is the list of its characters here, and
-- the file system is a function from a path to what reading it gives.
pub mod Types
pub mod Server
pub mod Token
pub mod Skip
pub mod Resolve
pub mod Ranges
pub mod Chosen
pub mod Same
pub mod Enabled
pub mod Filter
