-- ===== src/Adsb/Crc.antt =====
-- The parity of Mode S, crates/dsp/src/modes/adsb/crc.rs. A `u32` is a number; a shift to the left
-- keeps the low 32 bits.
mod Parity
pub mod Linear
mod Tests
use omnimodem.Base.{
  ℕ, zero, suc, ◌+◌, ◌-◌, ◌*◌, ◌/◌, ◌%◌, ◌^◌, List, [], ◌∷◌, ◌++◌, Option, none, some, bit_and,
  bit_xor, bit_or, ltb, ◌==◌, if◌then◌else◌, length, take, drop, replicate, get_or, set,
}

abbrev pub generator_poly : ℕ
generator_poly = 0x00FFF409

-- One round of the inner loop of `build_table`.
unfoldable pub table_round : ℕ → ℕ
table_round c =
    if bit_and c 0x00800000 == 0 then c * 2 % 2 ^ 32 else bit_xor (c * 2 % 2 ^ 32) generator_poly

unfoldable pub table_rounds : ℕ → ℕ → ℕ
table_rounds zero c = c
table_rounds (suc n) c = table_rounds n (table_round c)

-- The entry that `build_table` stores at an index.
unfoldable pub table_entry : ℕ → ℕ
table_entry i = bit_and (table_rounds 8 (i * 2 ^ 16 % 2 ^ 32)) 0x00FFFFFF

-- One round of the loop in `checksum`.
unfoldable pub checksum_byte : ℕ → ℕ → ℕ
checksum_byte rem b =
    let idx = bit_xor b (rem / 2 ^ 16 % 256) in
    bit_and (bit_xor (rem * 2 ^ 8 % 2 ^ 32) (table_entry idx)) 0x00FFFFFF

unfoldable pub checksum_from : ℕ → List ℕ → ℕ
checksum_from rem [] = rem
checksum_from rem (b ∷ bs) = checksum_from (checksum_byte rem b) bs

unfoldable pub checksum : List ℕ → ℕ
checksum msg = checksum_from 0 msg

-- A frame of fewer than three bytes is a panic, `none`.
unfoldable pub append_parity : List ℕ → Option (List ℕ)
append_parity frame =
    let body = take (length frame - 3) frame in
    let p = checksum body in
    if ltb (length frame) 3
    then none
    else some (body ++ (p / 2 ^ 16 % 256 ∷ p / 2 ^ 8 % 256 ∷ p % 256 ∷ []))

-- The buffer of `single_bit_syndrome`, zero but for `buf[p / 8] |= 1 << (7 - (p % 8))`. A byte past
-- its end, which is a panic, is not met when the bits are whole bytes.
unfoldable pub one_bit : ℕ → ℕ → List ℕ
one_bit p bytes = set (replicate bytes 0) (p / 8) (2 ^ (7 - p % 8))

unfoldable pub single_bit_syndrome : ℕ → ℕ → ℕ
single_bit_syndrome p nbits = checksum (one_bit p (nbits / 8))

-- `find` over the positions that are left, from a position on.
unfoldable pub find_syndrome : ℕ → ℕ → ℕ → ℕ → Option ℕ
find_syndrome zero p residual nbits = none
find_syndrome (suc left) p residual nbits =
    let rest = find_syndrome left (p + 1) residual nbits in
    if single_bit_syndrome p nbits == residual then some p else rest

unfoldable pub locate_single_bit_error : ℕ → ℕ → Option ℕ
locate_single_bit_error residual nbits =
    let found = find_syndrome nbits 0 residual nbits in if residual == 0 then none else found
