-- ===== src/Examples.antt =====
-- The example server, examples/rpc_server.rs.
pub mod Matrix
pub mod Echo
pub mod Compute
pub mod Certificates
pub mod Started
pub mod Conversation
pub mod Script
