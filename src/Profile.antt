-- ===== src/Profile.antt =====
-- crates/swbt-core/src/profile: colors, the local identity and the pairing document.
pub mod Colors
