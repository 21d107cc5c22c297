-- ===== src/Adsb/Crc/Tests.antt =====
-- The checksum at concrete frames.
use omnimodem.Base.{ℕ, ◌≡◌, refl, List, [], ◌∷◌, some, length, take, bit_xor, arith}
use omnimodem.Adsb.Crc.{
  checksum, checksum_from, checksum_byte, table_entry, table_rounds, table_round, append_parity,
}
use omnimodem.Adsb.Crc.Parity.{checksum-append_parity}
use omnimodem.Adsb.Crc.Linear.{xor_bytes, checksum-xor_bytes}

-- The frame of the source's own tests.
abbrev clean_frame : List ℕ
clean_frame =
    0x8D ∷ 0x48 ∷ 0x40 ∷ 0xD6 ∷ 0x20 ∷ 0x2C ∷ 0xC3 ∷ 0x71 ∷ 0xC3 ∷ 0x2C ∷ 0xE0 ∷ 0x57 ∷ 0x60 ∷ 0x98
    ∷ []

clean : checksum clean_frame ≡ 0
unfolding checksum checksum_from checksum_byte table_entry table_rounds table_round
clean = refl

abbrev short : List ℕ
short = 0x5D ∷ 0x48 ∷ 0x40 ∷ 0xD6 ∷ 0 ∷ 0 ∷ 0 ∷ []

checksum-append_parity_run :
    (out : List ℕ) × (append_parity short ≡ some out)
    × (checksum out ≡ 0)
    × (length out ≡ 7)
    × (take 4 out ≡ take 4 short)
checksum-append_parity_run = checksum-append_parity short (omega arith)

checksum-xor_bytes_run :
    checksum (xor_bytes short short) ≡ bit_xor (checksum short) (checksum short)
checksum-xor_bytes_run = checksum-xor_bytes short short refl
