-- ===== src/Service.antt =====
-- The middleware of the client (src/service), over the interface of the http crate.
pub mod Checks
pub mod Host
pub mod Executor
pub mod Timeout
pub mod Preprocess
