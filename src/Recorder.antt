-- ===== src/Recorder.antt =====
-- The recorder of crates/php-analyze/src/recorder: one module for each of its files.
pub mod Key
pub mod Types
pub mod Dictionary
pub mod Trace
pub mod Flush
pub mod CallSite
pub mod Extract
pub mod Begin
pub mod End
pub mod Request
pub mod Dump
pub mod Snapshots
pub mod Untimed
