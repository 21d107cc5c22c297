-- ===== src/Adsb/Repair.antt =====
-- The repair of a frame with one wrong bit: `repair_single_bit` of
-- crates/dsp/src/modes/adsb/demod2400.rs.
mod Flip
mod Sound
mod Single
mod Tests
use omnimodem.Base.{
  ℕ, ◌+◌, ◌-◌, ◌*◌, ◌/◌, ◌%◌, ◌^◌, Bool, true, false, List, [], ◌∷◌, Option, none, some, bit_xor,
  leb, ltb, if◌then◌else◌, length, get_or, set,
}
use omnimodem.Adsb.Crc.{checksum, locate_single_bit_error}

-- The bytes with one bit changed.
unfoldable pub toggle : ℕ → List ℕ → List ℕ
toggle p bytes = set bytes (p / 8) (bit_xor (get_or bytes (p / 8) 0) (2 ^ (7 - p % 8)))

-- `bytes[p / 8] ^= 1 << (7 - (p % 8))`. A position past the end is a panic, `none`.
unfoldable pub flip : ℕ → List ℕ → Option (List ℕ)
flip p bytes = if ltb (p / 8) (length bytes) then some (toggle p bytes) else none

-- Whether a repair was applied, and the bytes. None if a position past the end was to be changed.
unfoldable pub repair_single_bit : List ℕ → Option (Bool × List ℕ)
repair_single_bit bytes = elim (locate_single_bit_error (checksum bytes) (length bytes * 8)) [
  | none ↦ some (false, bytes)
  | some p ↦
      if leb 5 p
      then elim (flip p bytes) [ none ↦ none | some mended ↦ some (true, mended) ]
      else some (false, bytes)
]
