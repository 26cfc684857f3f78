-- ===== src/Bootstrap.antt =====
-- The glue of crates/php-analyze/src/bootstrap.rs: the INI directives, the identity of a request,
-- the life-cycle hooks and the table of phpinfo. Text is a list of characters here.
pub mod Directives
pub mod Identity
pub mod PhpInfo
pub mod Hooks
