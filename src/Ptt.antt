-- ===== src/Ptt.antt =====
-- Push-to-talk, crates/omnimodem/src/ptt: who may key a transmitter, and how one transmission
-- runs.
pub mod Registry
pub mod Interlock
pub mod Lease
pub mod Driver
pub mod Sequence
pub mod Serial
pub mod Hid
