-- ===== src/Adsb/Crc/Parity.antt =====
-- The parity bytes of Mode S.
use omnimodem.Base.{
  ℕ, ◌-◌, ◌*◌, ◌/◌, ◌%◌, ◌^◌, ◌≤◌, ◌<◌, ◌≡◌, refl, ◌∙◌, ap, List, [], ◌∷◌, ◌++◌, some, bit_xor,
  arith, length, take, length-append, length-take, take-append,
}
use omnimodem.Base.Bits.{bit_and-mask, bit_xor_self, bit_xor-zero}
use omnimodem.Adsb.Crc.{
  table_round, table_rounds, table_entry, checksum_byte, checksum_from, checksum, append_parity,
}

table_entry-zero : table_entry 0 ≡ 0
unfolding table_entry table_rounds table_round
table_entry-zero = refl

checksum_byte-lt : (rem b : ℕ) → checksum_byte rem b < 2 ^ 24
unfolding checksum_byte
checksum_byte-lt rem b = omega (
  arith,
  bit_and-mask 24 (bit_xor (rem * 2 ^ 8 % 2 ^ 32) (table_entry (bit_xor b (rem / 2 ^ 16 % 256)))),
)

checksum_from-lt : (rem : ℕ) (bs : List ℕ) → rem < 2 ^ 24 → checksum_from rem bs < 2 ^ 24
unfolding checksum_from
checksum_from-lt rem [] h = h
checksum_from-lt rem (b ∷ bs) h = checksum_from-lt (checksum_byte rem b) bs (checksum_byte-lt rem b)

pub checksum_from-append :
    (rem : ℕ) (xs ys : List ℕ)
    → checksum_from rem (xs ++ ys) ≡ checksum_from (checksum_from rem xs) ys
unfolding checksum_from
checksum_from-append rem [] ys = refl
checksum_from-append rem (x ∷ xs) ys = checksum_from-append (checksum_byte rem x) xs ys

-- A byte that is the high byte of the remainder takes that byte away.
cancel_byte :
    (rem b : ℕ) → rem < 2 ^ 24 → b ≡ rem / 2 ^ 16 % 256 → checksum_byte rem b ≡ rem * 256 % 2 ^ 24
unfolding checksum_byte
cancel_byte rem b h e =
    rw
      (
        e,
        bit_xor_self (rem / 2 ^ 16 % 256),
        table_entry-zero,
        bit_xor-zero (rem * 2 ^ 8 % 2 ^ 32),
        bit_and-mask 24 (rem * 2 ^ 8 % 2 ^ 32),
      )
      (omega arith)

parity_cancels :
    (p : ℕ) → p < 2 ^ 24 → checksum_from p (p / 2 ^ 16 % 256 ∷ p / 2 ^ 8 % 256 ∷ p % 256 ∷ []) ≡ 0
unfolding checksum_from
parity_cancels p h =
    rw
      (
        cancel_byte p (p / 2 ^ 16 % 256) h refl,
        cancel_byte (p * 256 % 2 ^ 24) (p / 2 ^ 8 % 256) (omega arith) (omega arith),
        cancel_byte (p * 256 % 2 ^ 24 * 256 % 2 ^ 24) (p % 256) (omega arith) (omega arith),
      )
      (omega arith)

-- Every frame of at least three bytes is completed: its length and its bytes before the last
-- three stay, and the frame that comes out checksums to zero.
pub checksum-append_parity :
    (frame : List ℕ)
    → 3 ≤ length frame
    → (out : List ℕ) × (append_parity frame ≡ some out)
      × (checksum out ≡ 0)
      × (length out ≡ length frame)
      × (take (length frame - 3) out ≡ take (length frame - 3) frame)
unfolding append_parity checksum
checksum-append_parity frame long =
    let body = take (length frame - 3) frame in
    let p = checksum body in
    let cut : length frame - 3 ≡ length body =
      omega (arith, length-take (length frame - 3) frame) in
    (
      body ++ (p / 2 ^ 16 % 256 ∷ p / 2 ^ 8 % 256 ∷ p % 256 ∷ []),
      ground arith,
      checksum_from-append 0 body (p / 2 ^ 16 % 256 ∷ p / 2 ^ 8 % 256 ∷ p % 256 ∷ [])
          ∙ parity_cancels p (checksum_from-lt 0 body (omega arith)),
      omega (
        arith,
        length-append body (p / 2 ^ 16 % 256 ∷ p / 2 ^ 8 % 256 ∷ p % 256 ∷ []),
        length-take (length frame - 3) frame,
      ),
      ap (λ n. take n (body ++ (p / 2 ^ 16 % 256 ∷ p / 2 ^ 8 % 256 ∷ p % 256 ∷ []))) cut
          ∙ take-append body (p / 2 ^ 16 % 256 ∷ p / 2 ^ 8 % 256 ∷ p % 256 ∷ []),
    )
