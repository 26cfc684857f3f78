-- ===== src/Shipper.antt =====
-- The shipper of crates/php-analyze/src/shipper: one module for each of its files or phases.
pub mod OnBatch
pub mod Encode
pub mod Retry
pub mod Http
pub mod Consume
pub mod Loop
pub mod Lifecycle
