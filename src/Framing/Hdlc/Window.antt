-- ===== src/Framing/Hdlc/Window.antt =====
-- The flag window of the HDLC deframer while stuffed bits go by.
use omnimodem.Base.{
  ℕ, zero, suc, ◌+◌, ◌*◌, ◌/◌, ◌%◌, ◌^◌, ◌<◌, ◌≡◌, true, List, [], ◌∷◌, ◌++◌, bit_or, arith,
}
use omnimodem.Base.Bits.{bit_or-zero, bit_or-disjoint, bit_or_comm}
use omnimodem.Framing.Hdlc.{Scan, scan_bit, flag}

-- The newest `n` bits of the window `w` are ones, and the bit before them is zero.
abbrev pub Run : ℕ → ℕ → Type 0
Run zero w = w < 128
Run (suc zero) w = w / 64 ≡ 2
Run (suc (suc zero)) w = w / 32 ≡ 6
Run (suc (suc (suc zero))) w = w / 16 ≡ 14
Run (suc (suc (suc (suc zero)))) w = w / 8 ≡ 30
Run (suc (suc (suc (suc (suc zero))))) w = w / 4 ≡ 62
Run (suc (suc (suc (suc (suc (suc zero)))))) w = w / 2 ≡ 126
Run _ w = ⊥

-- The state of the deframer inside a frame.
abbrev pub inside : ℕ → ℕ → ℕ → List ℕ → List (List ℕ) → Scan
inside w f o p fs = record {
  window = w;
  filled = f;
  collecting = true;
  ones = o;
  payload_bits = p;
  frames = fs;
}

pub shift_zero : (w : ℕ) → bit_or (w / 2) (0 * 2 ^ 7 % 256) ≡ w / 2
shift_zero w = bit_or-zero (w / 2)

shift_one : (w : ℕ) → w < 256 → bit_or (w / 2) (1 * 2 ^ 7 % 256) ≡ w / 2 + 128
shift_one w h = omega (arith, bit_or_comm (w / 2) 128, bit_or-disjoint 7 1 (w / 2) (omega arith))

pub Run-lt : (o w : ℕ) → Run o w → w < 256
Run-lt zero w h = omega arith
Run-lt (suc zero) w h = omega arith
Run-lt (suc (suc zero)) w h = omega arith
Run-lt (suc (suc (suc zero))) w h = omega arith
Run-lt (suc (suc (suc (suc zero)))) w h = omega arith
Run-lt (suc (suc (suc (suc (suc zero))))) w h = omega arith
Run-lt (suc (suc (suc (suc (suc (suc zero)))))) w h = omega arith
Run-lt (suc (suc (suc (suc (suc (suc (suc o))))))) w h = absurd h

-- A one lengthens the run; up to the sixth it is not yet a flag.
pub Run-one : (o w : ℕ) → o < 6 → Run o w → Run (o + 1) (w / 2 + 128)
Run-one zero w lt h = omega arith
Run-one (suc zero) w lt h = omega arith
Run-one (suc (suc zero)) w lt h = omega arith
Run-one (suc (suc (suc zero))) w lt h = omega arith
Run-one (suc (suc (suc (suc zero)))) w lt h = omega arith
Run-one (suc (suc (suc (suc (suc zero))))) w lt h = omega arith
Run-one (suc (suc (suc (suc (suc (suc o)))))) w lt h = absurd (omega arith)

half-ne-flag : (o w : ℕ) → o < 6 → Run o w → w / 2 ≡ flag → ⊥
half-ne-flag zero w lt h e = omega arith
half-ne-flag (suc zero) w lt h e = omega arith
half-ne-flag (suc (suc zero)) w lt h e = omega arith
half-ne-flag (suc (suc (suc zero))) w lt h e = omega arith
half-ne-flag (suc (suc (suc (suc zero)))) w lt h e = omega arith
half-ne-flag (suc (suc (suc (suc (suc zero))))) w lt h e = omega arith
half-ne-flag (suc (suc (suc (suc (suc (suc o)))))) w lt h e = absurd (omega arith)

module _ (o w f : ℕ) (p : List ℕ) (fs : List (List ℕ)) where
  pub scan_one :
      o < 8
      → Run o w
      → scan_bit (inside w f o p fs) 1 ≡ inside (w / 2 + 128) (f + 1) (o + 1) (p ++ (1 ∷ [])) fs
  unfolding scan_bit
  scan_one lt h = rw (shift_one w (Run-lt o w h)) (ground arith)

  -- A zero that follows fewer than five ones is payload.
  pub scan_zero :
      o < 5 → Run o w → scan_bit (inside w f o p fs) 0 ≡ inside (w / 2) (f + 1) 0 (p ++ (0 ∷ [])) fs
  unfolding scan_bit
  scan_zero lt h = rw (shift_zero w) (ground (arith, half-ne-flag o w))

  -- A zero that follows five ones was stuffed.
  pub scan_stuffed :
      o ≡ 5 → Run o w → scan_bit (inside w f o p fs) 0 ≡ inside (w / 2) (f + 1) 0 p fs
  unfolding scan_bit
  scan_stuffed e h = rw (shift_zero w) (ground (arith, half-ne-flag o w))
