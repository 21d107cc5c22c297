-- ===== src/Fec/Scramble.antt =====
-- The scramblers of crates/dsp/src/fec/scramble.rs. A method that takes `&mut self` returns the
-- new register beside the bit. A `u32` or `u16` register is a number.
mod Sync
mod Additive
mod Tests
use omnimodem.Base.{
  ℕ, ◌+◌, ◌-◌, ◌*◌, ◌/◌, ◌%◌, ◌^◌, List, [], ◌∷◌, bit_and, bit_or, bit_xor, max, ◌==◌,
  if◌then◌else◌,
}

abbrev pub tap12 : ℕ
tap12 = 2 ^ 11

abbrev pub tap17 : ℕ
tap17 = 2 ^ 16

abbrev pub mask17 : ℕ
mask17 = 2 ^ 17 - 1

-- `taps` of a register.
unfoldable pub taps : ℕ → ℕ
taps shift =
    bit_xor (if bit_and shift tap12 == 0 then 0 else 1) (if bit_and shift tap17 == 0 then 0 else 1)

-- `((shift << 1) | bit) & MASK`
unfoldable pub shift_in : ℕ → ℕ → ℕ
shift_in shift bit = bit_and (bit_or (shift * 2 % 2 ^ 32) bit) mask17

unfoldable pub scramble_bit : ℕ → ℕ → ℕ × ℕ
scramble_bit shift bit = let out = bit_xor (bit_and bit 1) (taps shift) in (shift_in shift out, out)

unfoldable pub descramble_bit : ℕ → ℕ → ℕ × ℕ
descramble_bit shift chan = (shift_in shift (bit_and chan 1), bit_xor (bit_and chan 1) (taps shift))

-- Both methods over a slice: the register behind it, and the bits.
unfoldable pub scramble : ℕ → List ℕ → ℕ × List ℕ
scramble shift [] = (shift, [])
scramble shift (b ∷ bs) =
    let (shift1, out) = scramble_bit shift b in
    let (shift2, outs) = scramble shift1 bs in (shift2, out ∷ outs)

unfoldable pub descramble : ℕ → List ℕ → ℕ × List ℕ
descramble shift [] = (shift, [])
descramble shift (c ∷ cs) =
    let (shift1, out) = descramble_bit shift c in
    let (shift2, outs) = descramble shift1 cs in (shift2, out ∷ outs)

-- An additive scrambler: a register that gives one key bit at a time.
pub record Keystream : Type 1 where
  pub State : Type 0
  pub next_key : State → State × ℕ

-- `apply` of both additive scramblers: the register behind it, and the bits.
module _ (ks : Keystream) where
  unfoldable pub apply : ks.State → List ℕ → ks.State × List ℕ
  apply s [] = (s, [])
  apply s (b ∷ bs) =
      let (s1, key) = ks.next_key s in
      let (s2, outs) = apply s1 bs in (s2, bit_xor (bit_and b 1) key ∷ outs)

abbrev pub frame_reset_seed : ℕ
frame_reset_seed = 0x1FF

-- `FrameResetScrambler::next_key`
unfoldable pub frame_reset_next_key : ℕ → ℕ × ℕ
frame_reset_next_key state =
    let b9 = bit_and (state / 2 ^ 8) 1 in
    let b4 = bit_and (state / 2 ^ 3) 1 in
    let fb = bit_xor b9 b4 in (bit_and (bit_or (state * 2 % 2 ^ 16) fb) (2 ^ 9 - 1), b9)

abbrev pub frame_reset : Keystream
frame_reset = record { State = ℕ; next_key = frame_reset_next_key }

pub record AdditivePrbs : Type 0 where
  pub poly : ℕ
  pub state : ℕ
  pub width : ℕ
  pub seed : ℕ

unfoldable pub prbs_new : ℕ → ℕ → ℕ → AdditivePrbs
prbs_new poly seed width =
    let mask = 2 ^ width - 1 in
    record {
      poly = bit_and poly mask;
      state = max (bit_and seed mask) 1;
      width = width;
      seed = bit_and seed mask;
    }

unfoldable pub prbs_m17 : AdditivePrbs
unfolding prbs_new
prbs_m17 = prbs_new (bit_or (2 ^ 8) (2 ^ 4)) (2 ^ 9 - 1) 9

unfoldable pub prbs_reset : AdditivePrbs → AdditivePrbs
prbs_reset p = record p { state = max p.seed 1 }

-- `count_ones` of a 32-bit word.
unfoldable pub count_ones : ℕ → ℕ → ℕ
count_ones ℕ.zero x = 0
count_ones (ℕ.suc n) x = x % 2 + count_ones n (x / 2)

unfoldable pub prbs_next_key : AdditivePrbs → AdditivePrbs × ℕ
unfolding count_ones
prbs_next_key p =
    let out = bit_and (p.state / 2 ^ (p.width - 1)) 1 in
    let fb = bit_and (count_ones 32 (bit_and p.state p.poly)) 1 in
    let mask = 2 ^ p.width - 1 in
    (record p { state = bit_and (bit_or (p.state * 2 % 2 ^ 32) fb) mask }, out)

abbrev pub prbs : Keystream
prbs = record { State = AdditivePrbs; next_key = prbs_next_key }
