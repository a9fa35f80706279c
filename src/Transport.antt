-- ===== src/Transport.antt =====
-- src/transport: the single-owner transport between the runtimes of one host.
pub mod Config
pub mod Protocol
pub mod Dedupe
pub mod Lock
pub mod Ownership
pub mod Recovery
pub mod Manager
pub mod RelayServer
