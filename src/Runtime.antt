-- ===== src/Runtime.antt =====
-- src/runtime: the state machines that drive a connection.
pub mod Scheduler
pub mod Lifecycle
pub mod Connection
pub mod Sender
pub mod Sessions
pub mod Clock
pub mod Transport
pub mod Output
pub mod Periodic
pub mod Direct
pub mod Handshake
pub mod Readiness
pub mod Cleanup
pub mod Worker
pub mod Command
