-- ===== src/Fec.antt =====
-- The error-detection and line-coding blocks of crates/dsp/src/fec.
pub mod Crc
pub mod Nrzi
pub mod Gray
pub mod Scramble
