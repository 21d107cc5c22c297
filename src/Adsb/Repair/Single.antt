-- ===== src/Adsb/Repair/Single.antt =====
-- A frame that was hit in one bit: no two bits of a frame have the same syndrome, so the repair finds
-- the one that was hit. A frame of Mode S has 7 or 14 bytes.
use mathlib.Core.Bool.{◌&&◌}
use native.Mathlib.Decide.{ℕ_discrete}
use omnimodem.Base.{
  Bool-cases, ℕ, zero, suc, ◌+◌, ◌-◌, ◌*◌, ◌/◌, ◌%◌, ◌^◌, ◌<◌, ◌≤◌, ◌≡◌, refl, ◌∙◌, ap, ◌⊎◌, Bool,
  true, false, not, List, [], ◌∷◌, some, bit_xor, arith, leb, ltb, ◌==◌, if◌then◌else◌, length, inl,
  inr, set, get_or,
}
use omnimodem.Base.Bits.{bit_xor_comm, bit_xor-zero, bit_xor_cancel}
use omnimodem.Adsb.Crc.{
  checksum, checksum_from, checksum_byte, table_entry, table_rounds, table_round, one_bit,
  single_bit_syndrome, find_syndrome, locate_single_bit_error,
}
use omnimodem.Adsb.Repair.{toggle, flip, repair_single_bit}
use omnimodem.Adsb.Repair.Sound.{repaired}
use omnimodem.Adsb.Repair.Flip.{length-toggle, checksum-toggle}

-- The syndromes of the positions from one on.
unfoldable syndromes : ℕ → ℕ → ℕ → List ℕ
syndromes zero p nbits = []
syndromes (suc left) p nbits = single_bit_syndrome p nbits ∷ syndromes left (p + 1) nbits

unfoldable differs : ℕ → List ℕ → Bool
differs s [] = true
differs s (t ∷ ts) = not (s == t) && differs s ts

-- No syndrome is zero, and no two are the same.
unfoldable all_differ : List ℕ → Bool
unfolding differs
all_differ [] = true
all_differ (s ∷ ss) = not (s == 0) && differs s ss && all_differ ss

abbrev IsFrameLength : ℕ → Type 0
IsFrameLength bytes = (bytes ≡ 7) ⊎ (bytes ≡ 14)

short_differ : all_differ (syndromes 56 0 56) ≡ true
unfolding all_differ differs syndromes single_bit_syndrome one_bit checksum checksum_from
    checksum_byte table_entry table_rounds table_round
short_differ = refl

long_differ : all_differ (syndromes 112 0 112) ≡ true
unfolding all_differ differs syndromes single_bit_syndrome one_bit checksum checksum_from
    checksum_byte table_entry table_rounds table_round
long_differ = refl

differs-syndromes :
    (left p nbits s q : ℕ)
    → differs s (syndromes left p nbits) ≡ true
    → p ≤ q
    → q < p + left
    → (s == single_bit_syndrome q nbits) ≡ false
unfolding differs syndromes
differs-syndromes zero p nbits s q d lo hi = absurd (omega arith)
differs-syndromes (suc left) p nbits s q d lo hi = elim (ℕ_discrete p q) [
  | yes e ↦ rw⁻¹ e (ground (arith, d))
  | no ne ↦
      differs-syndromes left (p + 1) nbits s q (ground (arith, d)) (omega (arith, ne)) (omega arith)
]

find_syndrome_first :
    (left p nbits q : ℕ)
    → all_differ (syndromes left p nbits) ≡ true
    → p ≤ q
    → q < p + left
    → ((single_bit_syndrome q nbits == 0) ≡ false)
      × (find_syndrome left p (single_bit_syndrome q nbits) nbits ≡ some q)
unfolding all_differ syndromes find_syndrome
find_syndrome_first zero p nbits q d lo hi = absurd (omega arith)
find_syndrome_first (suc left) p nbits q d lo hi = elim (ℕ_discrete p q) [
  | yes e ↦ rw⁻¹ e (ground (arith, d))
  | no ne ↦
      let others : differs (single_bit_syndrome p nbits) (syndromes left (p + 1) nbits) ≡ true =
        ground (arith, d) in
      let other =
        differs-syndromes left (p + 1) nbits (single_bit_syndrome p nbits) q others
          (omega (arith, ne)) (omega arith) in
      let (dirty, found) =
        find_syndrome_first left (p + 1) nbits q (ground (arith, d)) (omega (arith, ne))
          (omega arith) in
      (dirty, rw other found)
]

-- The position that is located from a bit's syndrome is the bit's.
locate-syndrome :
    (bytes q : ℕ)
    → IsFrameLength bytes
    → q < bytes * 8
    → locate_single_bit_error (single_bit_syndrome q (bytes * 8)) (bytes * 8) ≡ some q
unfolding locate_single_bit_error
locate-syndrome bytes q (inl short) inside = rw short (
    let (dirty, found) =
      find_syndrome_first 56 0 56 q short_differ (omega arith) (omega (arith, short)) in
    rw dirty found)
locate-syndrome bytes q (inr long) inside = rw long (
    let (dirty, found) =
      find_syndrome_first 112 0 112 q long_differ (omega arith) (omega (arith, long)) in
    rw dirty found)

set-set : {A : Type 0} (xs : List A) (i : ℕ) (v w : A) → set (set xs i v) i w ≡ set xs i w
set-set [] i v w = refl
set-set (x ∷ xs) zero v w = refl
set-set (x ∷ xs) (suc i) v w = ap (λ t. x ∷ t) (set-set xs i v w)

set-get_or : (xs : List ℕ) (i d : ℕ) → set xs i (get_or xs i d) ≡ xs
set-get_or [] i d = refl
set-get_or (x ∷ xs) zero d = refl
set-get_or (x ∷ xs) (suc i) d = ap (λ t. x ∷ t) (set-get_or xs i d)

set_xor_twice :
    (xs : List ℕ) (i m : ℕ)
    → set
        (set xs i (bit_xor (get_or xs i 0) m))
        i
        (bit_xor (get_or (set xs i (bit_xor (get_or xs i 0) m)) i 0) m)
      ≡ xs
set_xor_twice [] i m = refl
set_xor_twice (x ∷ xs) zero m = ap (λ t. t ∷ xs) (bit_xor_cancel x m)
set_xor_twice (x ∷ xs) (suc i) m = ap (λ t. x ∷ t) (set_xor_twice xs i m)

toggle_twice : (p : ℕ) (frame : List ℕ) → toggle p (toggle p frame) ≡ frame
unfolding toggle
toggle_twice p frame = set_xor_twice frame (p / 8) (2 ^ (7 - p % 8))

inside_of : (p n : ℕ) → ltb (p / 8) n ≡ true → p < n * 8
inside_of p n h = ground arith

flip_inside :
    (p : ℕ) (frame hit : List ℕ)
    → flip p frame ≡ some hit
    → (p < length frame * 8) × (toggle p frame ≡ hit)
unfolding flip
flip_inside p frame hit e = elim (Bool-cases (ltb (p / 8) (length frame))) [
  | inl here ↦ (inside_of p (length frame) here, cc (rw here at e))
  | inr past ↦ cc (rw past at e)
]

-- A frame of 7 or of 14 bytes that checks is hit in one bit: the repair gives the frame back, bit
-- for bit, and says so, unless the bit is one of the five of the format field, where it leaves the
-- frame as it came and says that nothing was repaired.
pub repair_single_bit-flip :
    (frame hit : List ℕ) (p : ℕ)
    → IsFrameLength (length frame)
    → checksum frame ≡ 0
    → flip p frame ≡ some hit
    → repair_single_bit hit ≡ some (if leb 5 p then (true, frame) else (false, hit))
repair_single_bit-flip frame hit p framed clean flipped =
    let (inside, same) = flip_inside p frame hit flipped in
    let syndrome : checksum (toggle p frame) ≡ single_bit_syndrome p (length frame * 8) =
      checksum-toggle p frame
      ∙ ap (λ t. bit_xor t (single_bit_syndrome p (length frame * 8))) clean
      ∙ bit_xor_comm 0 (single_bit_syndrome p (length frame * 8))
      ∙ bit_xor-zero (single_bit_syndrome p (length frame * 8)) in
    let located : locate_single_bit_error (checksum (toggle p frame)) (length (toggle p frame) * 8)
        ≡ some p =
      rw (syndrome, length-toggle p frame) (locate-syndrome (length frame) p framed inside) in
    rw⁻¹ same (
      repaired (toggle p frame) p located
      ∙ ap (λ t. some (if leb 5 p then (true, t) else (false, toggle p frame)))
          (toggle_twice p frame))
