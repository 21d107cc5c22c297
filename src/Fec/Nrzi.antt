-- ===== src/Fec/Nrzi.antt =====
-- NRZI line coding and differential BPSK, crates/dsp/src/fec/nrzi.rs and gray.rs. A bit and a
-- level are the numbers 0 and 1, as in the source.
mod Tests
use omnimodem.Base.{
  ℕ, zero, suc, ◌-◌, ◌<◌, ◌≡◌, refl, ap, drop, List, [], ◌∷◌, map, bit_and, bit_xor, arith, ◌==◌,
  if◌then◌else◌, All,
}
use omnimodem.Base.Bits.{bit_and-one, bit_xor_comm, bit_xor_cancel}

-- The loops of `nrzi_encode` and `nrzi_decode`, from a level.
nrzi_encode_from : ℕ → List ℕ → List ℕ
nrzi_encode_from level [] = []
nrzi_encode_from level (b ∷ bs) =
    let level' = if b == 0 then bit_xor level 1 else level in level' ∷ nrzi_encode_from level' bs

unfoldable pub nrzi_encode : List ℕ → List ℕ
unfolding nrzi_encode_from
nrzi_encode bits = nrzi_encode_from 0 bits

nrzi_decode_from : ℕ → List ℕ → List ℕ
nrzi_decode_from prev [] = []
nrzi_decode_from prev (lvl ∷ lvls) = (if lvl == prev then 1 else 0) ∷ nrzi_decode_from lvl lvls

unfoldable pub nrzi_decode : List ℕ → List ℕ
unfolding nrzi_decode_from
nrzi_decode levels = nrzi_decode_from 0 levels

diff_encode_from : ℕ → List ℕ → List ℕ
diff_encode_from sym [] = []
diff_encode_from sym (b ∷ bs) =
    let sym' = bit_xor sym (bit_and b 1) in sym' ∷ diff_encode_from sym' bs

unfoldable pub diff_bpsk_encode : List ℕ → List ℕ
unfolding diff_encode_from
diff_bpsk_encode bits = diff_encode_from 0 bits

diff_decode_from : ℕ → List ℕ → List ℕ
diff_decode_from prev [] = []
diff_decode_from prev (s ∷ syms) = bit_and (bit_xor s prev) 1 ∷ diff_decode_from s syms

unfoldable pub diff_bpsk_decode : List ℕ → List ℕ
unfolding diff_decode_from
diff_bpsk_decode syms = diff_decode_from 0 syms

abbrev pub AreBits : List ℕ → Type 0
AreBits bits = All (λ b. b < 2) bits

encode_decode_from :
    (level : ℕ) (bits : List ℕ)
    → level < 2
    → AreBits bits
    → nrzi_decode_from level (nrzi_encode_from level bits) ≡ bits
unfolding nrzi_encode_from nrzi_decode_from
encode_decode_from level [] hl h = refl
encode_decode_from zero (zero ∷ bits) hl h =
    ap (λ t. 0 ∷ t) (encode_decode_from 1 bits (omega arith) h.1)
encode_decode_from zero (suc zero ∷ bits) hl h = ap (λ t. 1 ∷ t) (encode_decode_from 0 bits hl h.1)
encode_decode_from (suc zero) (zero ∷ bits) hl h =
    ap (λ t. 0 ∷ t) (encode_decode_from 0 bits (omega arith) h.1)
encode_decode_from (suc zero) (suc zero ∷ bits) hl h =
    ap (λ t. 1 ∷ t) (encode_decode_from 1 bits hl h.1)
encode_decode_from zero (suc (suc b) ∷ bits) hl h = absurd (omega arith)
encode_decode_from (suc zero) (suc (suc b) ∷ bits) hl h = absurd (omega arith)
encode_decode_from (suc (suc l)) (b ∷ bits) hl h = absurd (omega arith)

-- NRZI: decoding the line levels of a stream of bits gives the bits back.
pub nrzi_decode-nrzi_encode : (bits : List ℕ) → AreBits bits → nrzi_decode (nrzi_encode bits) ≡ bits
unfolding nrzi_encode nrzi_decode
nrzi_decode-nrzi_encode bits h = encode_decode_from 0 bits (omega arith) h

abbrev pub invert : List ℕ → List ℕ
invert = map (λ l. 1 - l)

same_inverted : (a b : ℕ) → a < 2 → b < 2 → ((1 - a) == (1 - b)) ≡ (a == b)
same_inverted zero zero p q = refl
same_inverted zero (suc zero) p q = refl
same_inverted (suc zero) zero p q = refl
same_inverted (suc zero) (suc zero) p q = refl
same_inverted (suc (suc a)) b p q = absurd (omega arith)
same_inverted zero (suc (suc b)) p q = absurd (omega arith)
same_inverted (suc zero) (suc (suc b)) p q = absurd (omega arith)

decode_inverted :
    (prev : ℕ) (levels : List ℕ)
    → prev < 2
    → AreBits levels
    → nrzi_decode_from (1 - prev) (invert levels) ≡ nrzi_decode_from prev levels
unfolding nrzi_decode_from
decode_inverted prev [] hp h = refl
decode_inverted prev (l ∷ levels) hp h =
    rw (same_inverted l prev h.0 hp, decode_inverted l levels h.0 h.1) refl

-- A receiver with its polarity inverted decodes the same bits from the second one on, when every
-- level is a bit.
pub nrzi_decode-invert :
    (levels : List ℕ)
    → AreBits levels
    → drop 1 (nrzi_decode (invert levels)) ≡ drop 1 (nrzi_decode levels)
unfolding nrzi_decode
nrzi_decode-invert [] h = refl
nrzi_decode-invert (l ∷ levels) h = decode_inverted l levels h.0 h.1

diff_encode_decode_from :
    (sym : ℕ) (bits : List ℕ)
    → AreBits bits
    → diff_decode_from sym (diff_encode_from sym bits) ≡ bits
unfolding diff_encode_from diff_decode_from
diff_encode_decode_from sym [] h = refl
diff_encode_decode_from sym (b ∷ bits) h =
    rw (back, diff_encode_decode_from (bit_xor sym (bit_and b 1)) bits h.1) refl
  where
    back : bit_and (bit_xor (bit_xor sym (bit_and b 1)) sym) 1 ≡ b
    back =
        rw
          (
            bit_xor_comm sym (bit_and b 1),
            bit_xor_cancel (bit_and b 1) sym,
            bit_and-one,
            bit_and-one,
          )
          (omega arith)

-- Differential BPSK: decoding the symbols of a stream of bits gives the bits back.
pub diff_bpsk_decode-diff_bpsk_encode :
    (bits : List ℕ) → AreBits bits → diff_bpsk_decode (diff_bpsk_encode bits) ≡ bits
unfolding diff_bpsk_encode diff_bpsk_decode
diff_bpsk_decode-diff_bpsk_encode bits h = diff_encode_decode_from 0 bits h
