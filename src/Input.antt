-- ===== src/Input.antt =====
-- crates/swbt-core/src/input: sticks, button sets, IMU frames and the complete input state.
pub mod Stick
pub mod ButtonSet
pub mod Imu
pub mod State
