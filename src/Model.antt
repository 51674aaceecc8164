-- ===== src/Model.antt =====
-- crates/swbt-core/src/model: controller models, their buttons and where the buttons stand in an
-- input report.
pub mod Button
pub mod Hid
pub mod Spec
pub mod Wire
