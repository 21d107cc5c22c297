-- ===== src/Framing.antt =====
-- The framings of crates/dsp/src/framing.
pub mod Hdlc
pub mod Ax25
pub mod Pack28
pub mod Pack77
pub mod Baudot
