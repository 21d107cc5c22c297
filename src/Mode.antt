-- ===== src/Mode.antt =====
-- The configuration of a channel's mode, crates/omnimodem/src/mode/mod.rs.
pub mod Labels
pub mod Config
pub mod Print
