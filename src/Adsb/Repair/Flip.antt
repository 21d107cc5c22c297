-- ===== src/Adsb/Repair/Flip.antt =====
-- A flipped bit is the difference to a frame of zeros with that bit.
use omnimodem.Base.{
  ℕ, zero, suc, ◌-◌, ◌*◌, ◌/◌, ◌%◌, ◌^◌, ◌≡◌, refl, ◌∙◌, sym, ap, List, [], ◌∷◌, bit_xor, arith,
  length, get_or, set, replicate, length-set, length-replicate,
}
use omnimodem.Base.Bits.{bit_xor-zero}
use omnimodem.Adsb.Crc.{checksum, one_bit, single_bit_syndrome}
use omnimodem.Adsb.Crc.Linear.{xor_bytes, checksum-xor_bytes}
use omnimodem.Adsb.Repair.{toggle}

xor_bytes-zeros : (xs : List ℕ) → xor_bytes xs (replicate (length xs) 0) ≡ xs
unfolding xor_bytes
xor_bytes-zeros [] = refl
xor_bytes-zeros (x ∷ xs) = rw (bit_xor-zero x, xor_bytes-zeros xs) refl

set-xor_bytes :
    (xs : List ℕ) (i v : ℕ)
    → set xs i (bit_xor (get_or xs i 0) v) ≡ xor_bytes xs (set (replicate (length xs) 0) i v)
unfolding xor_bytes
set-xor_bytes [] i v = refl
set-xor_bytes (x ∷ xs) zero v = ap (λ t. bit_xor x v ∷ t) (sym (xor_bytes-zeros xs))
set-xor_bytes (x ∷ xs) (suc i) v = rw (bit_xor-zero x) (ap (λ t. x ∷ t) (set-xor_bytes xs i v))

length-one_bit : (p bytes : ℕ) → length (one_bit p bytes) ≡ bytes
unfolding one_bit
length-one_bit p bytes =
    length-set (replicate bytes 0) (p / 8) (2 ^ (7 - p % 8)) ∙ length-replicate bytes 0

toggle-xor_bytes :
    (p : ℕ) (frame : List ℕ) → toggle p frame ≡ xor_bytes frame (one_bit p (length frame))
unfolding toggle one_bit
toggle-xor_bytes p frame = set-xor_bytes frame (p / 8) (2 ^ (7 - p % 8))

pub length-toggle : (p : ℕ) (frame : List ℕ) → length (toggle p frame) ≡ length frame
unfolding toggle
length-toggle p frame =
    length-set frame (p / 8) (bit_xor (get_or frame (p / 8) 0) (2 ^ (7 - p % 8)))

-- A toggle adds the bit's syndrome to the checksum.
pub checksum-toggle :
    (p : ℕ) (frame : List ℕ)
    → checksum (toggle p frame)
      ≡ bit_xor (checksum frame) (single_bit_syndrome p (length frame * 8))
unfolding single_bit_syndrome
checksum-toggle p frame =
    ap checksum (toggle-xor_bytes p frame)
    ∙ checksum-xor_bytes frame (one_bit p (length frame)) (sym (length-one_bit p (length frame)))
    ∙ ap (λ n. bit_xor (checksum frame) (checksum (one_bit p n))) whole
  where
    whole : length frame ≡ length frame * 8 / 8
    whole = omega arith
