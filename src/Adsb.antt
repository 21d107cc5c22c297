-- ===== src/Adsb.antt =====
-- Mode S reception, crates/dsp/src/modes/adsb: the parity of a frame, and the roster of the
-- aircraft that were heard.
pub mod Roster
pub mod Crc
pub mod Repair
