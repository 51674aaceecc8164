-- ===== src/Protocol.antt =====
-- crates/swbt-core/src/protocol: the pure Nintendo Switch HID protocol.
pub mod Error
pub mod Floats
pub mod Imu
pub mod Session
pub mod InputReport
pub mod Spi
pub mod Subcommand
pub mod Facade
pub mod OutputReport
pub mod PutBits
