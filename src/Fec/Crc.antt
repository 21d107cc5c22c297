-- ===== src/Fec/Crc.antt =====
-- The parametric CRC of crates/dsp/src/fec/crc.rs. A `u32` is a number; `<<` keeps the low 32
-- bits.
use omnimodem.Base.{
  ℕ, zero, suc, ◌-◌, ◌*◌, ◌/◌, ◌%◌, ◌^◌, ◌<◌, ◌≡◌, refl, Bool, true, List, [], ◌∷◌, bit_and, bit_or,
  bit_xor, arith, ◌==◌, if◌then◌else◌,
}
use omnimodem.Base.Bits.{bit_and-mask}

pub record CrcSpec : Type 0 where
  pub width : ℕ
  pub poly : ℕ
  pub init : ℕ
  pub refin : Bool
  pub refout : Bool
  pub xorout : ℕ

abbrev pub crc16_x25 : CrcSpec
crc16_x25 = record {
  width = 16;
  poly = 0x1021;
  init = 0xFFFF;
  refin = true;
  refout = true;
  xorout = 0xFFFF;
}

abbrev pub shl32 : ℕ → ℕ → ℕ
shl32 x k = x * 2 ^ k % 2 ^ 32

-- The loop of `reflect`, with the rounds left: `r = (r << 1) | (v & 1); v >>= 1`.
pub reflect_loop : ℕ → ℕ → ℕ → ℕ
reflect_loop zero v r = r
reflect_loop (suc n) v r = reflect_loop n (v / 2) (bit_or (shl32 r 1) (bit_and v 1))

unfoldable pub reflect : ℕ → ℕ → ℕ
unfolding reflect_loop
reflect v bits = reflect_loop bits v 0

abbrev pub mask_of : CrcSpec → ℕ
mask_of spec = 2 ^ spec.width - 1

-- The inner loop over the eight bits of a byte, with the rounds left.
pub crc_bits : CrcSpec → ℕ → ℕ → ℕ
crc_bits spec zero reg = reg
crc_bits spec (suc n) reg = crc_bits spec n (
    if bit_and reg (2 ^ (spec.width - 1)) == 0
    then bit_and (shl32 reg 1) (mask_of spec)
    else bit_and (bit_xor (shl32 reg 1) spec.poly) (mask_of spec))

-- The loop over the bytes.
pub crc_bytes : CrcSpec → ℕ → List ℕ → ℕ
unfolding reflect crc_bits
crc_bytes spec reg [] = reg
crc_bytes spec reg (b ∷ bs) =
    let byte = if spec.refin then reflect b 8 else b in
    let reg' = bit_xor reg (bit_and (shl32 byte (spec.width - 8)) (mask_of spec)) in
    crc_bytes spec (crc_bits spec 8 reg') bs

unfoldable pub crc : CrcSpec → List ℕ → ℕ
unfolding reflect crc_bytes
crc spec bytes =
    let reg = crc_bytes spec (bit_and spec.init (mask_of spec)) bytes in
    let out = if spec.refout then reflect reg spec.width else reg in
    bit_and (bit_xor out spec.xorout) (mask_of spec)

-- The FCS of AX.25 fits sixteen bits.
pub crc16-lt : (bytes : List ℕ) → crc crc16_x25 bytes < 2 ^ 16
unfolding crc
crc16-lt bytes =
    omega (arith, bit_and-mask 16 (bit_xor (reflect (crc_bytes crc16_x25 0xFFFF bytes) 16) 0xFFFF))

-- The check value that the CRC catalogue gives for the text 123456789.
check_value :
    crc crc16_x25 (b'1' ∷ b'2' ∷ b'3' ∷ b'4' ∷ b'5' ∷ b'6' ∷ b'7' ∷ b'8' ∷ b'9' ∷ []) ≡ 0x906E
unfolding crc
check_value = refl
