-- ===== src/Adsb/Repair/Tests.antt =====
-- The repair at a concrete frame.
use omnimodem.Base.{ℕ, ◌≤◌, ◌<◌, ◌*◌, length, ◌≡◌, refl, ◌≢◌, true, inl, List, [], ◌∷◌, some, arith}
use omnimodem.Adsb.Crc.{
  checksum, checksum_from, checksum_byte, table_entry, table_rounds, table_round, one_bit,
  single_bit_syndrome, find_syndrome, locate_single_bit_error,
}
use omnimodem.Adsb.Repair.{toggle, flip, repair_single_bit}
use omnimodem.Adsb.Repair.Single.{repair_single_bit-flip}
use omnimodem.Adsb.Repair.Sound.{repair_single_bit-checksum, locate_single_bit_error-toggle}

abbrev frame : List ℕ
frame = 0x5D ∷ 0x48 ∷ 0x40 ∷ 0xD6 ∷ 0xF8 ∷ 0x74 ∷ 0x0F ∷ []

frame_sum : checksum frame ≡ 0
unfolding checksum checksum_from checksum_byte table_entry table_rounds table_round
frame_sum = refl

-- The same frame with its bit 20 wrong.
abbrev hit : List ℕ
hit = 0x5D ∷ 0x48 ∷ 0x48 ∷ 0xD6 ∷ 0xF8 ∷ 0x74 ∷ 0x0F ∷ []

hit_is_flip : flip 20 frame ≡ some hit
unfolding flip toggle
hit_is_flip = refl

hit_sum : checksum (toggle 20 frame) ≢ 0
unfolding toggle checksum checksum_from checksum_byte table_entry table_rounds table_round
hit_sum = λ e. omega arith

hit_repaired : repair_single_bit hit ≡ some (true, frame)
unfolding repair_single_bit locate_single_bit_error find_syndrome single_bit_syndrome one_bit flip
    toggle checksum checksum_from checksum_byte table_entry table_rounds table_round
hit_repaired = refl

repair_single_bit-checksum_example :
    (checksum hit ≢ 0)
    × (p : ℕ) × (5 ≤ p)
    × (p < length hit * 8)
    × (flip p hit ≡ some frame)
    × (checksum frame ≡ 0)
repair_single_bit-checksum_example = repair_single_bit-checksum hit frame hit_repaired

locate_single_bit_error-toggle_run :
    (q : ℕ) × (locate_single_bit_error (checksum (toggle 20 frame)) 56 ≡ some q)
    × (checksum (toggle q (toggle 20 frame)) ≡ 0)
locate_single_bit_error-toggle_run =
    locate_single_bit_error-toggle frame 20 frame_sum (omega arith) hit_sum

repair_single_bit-flip_example : repair_single_bit hit ≡ some (true, frame)
repair_single_bit-flip_example =
    repair_single_bit-flip frame hit 20 (inl refl) frame_sum hit_is_flip
