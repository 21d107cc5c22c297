-- ===== src/Fec/Nrzi/Tests.antt =====
-- The line codes at concrete bits.
use omnimodem.Base.{ℕ, ◌≡◌, refl, List, [], ◌∷◌, drop, arith}
use omnimodem.Fec.Nrzi.{
  nrzi_encode, nrzi_decode, diff_bpsk_encode, diff_bpsk_decode, AreBits, invert,
  nrzi_decode-nrzi_encode, nrzi_decode-invert, diff_bpsk_decode-diff_bpsk_encode,
}

abbrev bits : List ℕ
bits = 1 ∷ 0 ∷ 0 ∷ 1 ∷ []

bits-AreBits : AreBits bits
bits-AreBits = (omega arith, (omega arith, (omega arith, (omega arith, tt))))

encode_bits : nrzi_encode bits ≡ 0 ∷ 1 ∷ 0 ∷ 0 ∷ []
unfolding nrzi_encode
encode_bits = refl

nrzi_decode-nrzi_encode_example : nrzi_decode (nrzi_encode bits) ≡ bits
nrzi_decode-nrzi_encode_example = nrzi_decode-nrzi_encode bits bits-AreBits

nrzi_decode-invert_run : drop 1 (nrzi_decode (invert bits)) ≡ drop 1 (nrzi_decode bits)
nrzi_decode-invert_run = nrzi_decode-invert bits bits-AreBits

diff_bpsk_decode-diff_bpsk_encode_run : diff_bpsk_decode (diff_bpsk_encode bits) ≡ bits
diff_bpsk_decode-diff_bpsk_encode_run = diff_bpsk_decode-diff_bpsk_encode bits bits-AreBits
