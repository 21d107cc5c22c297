-- ===== src/Fec/Gray/Tests.antt =====
-- The Gray code at concrete numbers.
use omnimodem.Base.{ℕ, ◌+◌, ◌^◌, ◌≡◌, refl, some, bit_xor, arith}
use omnimodem.Fec.Gray.{gray_encode, gray_decode, gray_decode-gray_encode, gray_encode-suc}

encode_seven : gray_encode 7 ≡ 4
unfolding gray_encode
encode_seven = refl

gray_decode-gray_encode_example : gray_decode (gray_encode 4000000000) ≡ some 4000000000
gray_decode-gray_encode_example = gray_decode-gray_encode 4000000000 (omega arith)

gray_encode-suc_run : (k : ℕ) × (bit_xor (gray_encode 7) (gray_encode (7 + 1)) ≡ 2 ^ k)
gray_encode-suc_run = gray_encode-suc 7
