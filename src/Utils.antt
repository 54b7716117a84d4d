-- ===== src/Utils.antt =====
-- src/utils.rs: helpers for configuration, retries, logging and stream checks.
pub mod Format
pub mod Retry
pub mod Params
pub mod Address
pub mod Streams
