-- ===== src/Runtime/Worker.antt =====
-- src/runtime/worker.rs: the worker that runs commands, transport events and due reports.
pub mod Types
pub mod Reporting
pub mod PeriodicReporting
pub mod DirectReporting
pub mod Core
pub mod Drive
pub mod Step
pub mod Open
pub mod Lawful
pub mod Tally
