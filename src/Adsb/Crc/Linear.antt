-- ===== src/Adsb/Crc/Linear.antt =====
-- The checksum of Mode S over exclusive or.
use omnimodem.Base.{
  ℕ, zero, suc, ◌-◌, ◌*◌, ◌/◌, ◌%◌, ◌^◌, ◌≡◌, refl, ◌∙◌, sym, ap, List, [], ◌∷◌, bit_and, bit_xor,
  arith, length, inl, inr,
}
use omnimodem.Base.Bits.{
  bit_and-mask, bit_and-xor, bit_and-two_pow, bit_xor-shift, bit_xor-shift_right,
  bit_xor_interchange, bit_xor_self, bit_xor-zero, bit_xor_assoc, bit_xor_comm,
}
use omnimodem.Adsb.Crc.{
  generator_poly, table_round, table_rounds, table_entry, checksum_byte, checksum_from, checksum,
}

-- The remainder by a power of two, as its mask.
mod_two_pow-xor : (k a b : ℕ) → bit_xor a b % 2 ^ k ≡ bit_xor (a % 2 ^ k) (b % 2 ^ k)
mod_two_pow-xor k a b =
    sym (bit_and-mask k (bit_xor a b))
    ∙ bit_and-xor a b (2 ^ k - 1)
    ∙ ap (λ (t : ℕ). bit_xor t (bit_and b (2 ^ k - 1))) (bit_and-mask k a)
    ∙ ap (λ (t : ℕ). bit_xor (a % 2 ^ k) t) (bit_and-mask k b)

-- `<<` on a `u32`.
shl-xor :
    (k a b : ℕ) → bit_xor a b * 2 ^ k % 2 ^ 32 ≡ bit_xor (a * 2 ^ k % 2 ^ 32) (b * 2 ^ k % 2 ^ 32)
shl-xor k a b =
    ap (λ (t : ℕ). t % 2 ^ 32) (sym (bit_xor-shift k a b))
    ∙ mod_two_pow-xor 32 (a * 2 ^ k) (b * 2 ^ k)

xor_swap : (a b c : ℕ) → bit_xor (bit_xor a b) c ≡ bit_xor (bit_xor a c) b
xor_swap a b c =
    bit_xor_assoc a b c ∙ ap (λ t. bit_xor a t) (bit_xor_comm b c) ∙ sym (bit_xor_assoc a c b)

xor_both : (a b p : ℕ) → bit_xor (bit_xor a p) (bit_xor b p) ≡ bit_xor a b
xor_both a b p =
    bit_xor_interchange a p b p
    ∙ ap (λ t. bit_xor (bit_xor a b) t) (bit_xor_self p)
    ∙ bit_xor-zero (bit_xor a b)

table_round-xor : (c d : ℕ) → table_round (bit_xor c d) ≡ bit_xor (table_round c) (table_round d)
unfolding table_round
table_round-xor c d =
    let spread = bit_and-xor c d 0x00800000 in
    let doubled = shl-xor 1 c d in
    elim (bit_and-two_pow 23 c) [
      | inl c_off ↦ elim (bit_and-two_pow 23 d) [
        | inl d_off ↦ rw (spread, c_off, d_off) doubled
        | inr d_on ↦
            rw (spread, c_off, d_on)
              (ap (λ t. bit_xor t generator_poly) doubled
                ∙ bit_xor_assoc (c * 2 % 2 ^ 32) (d * 2 % 2 ^ 32) generator_poly)
      ]
      | inr c_on ↦ elim (bit_and-two_pow 23 d) [
        | inl d_off ↦
            rw (spread, c_on, d_off)
              (ap (λ t. bit_xor t generator_poly) doubled
                ∙ xor_swap (c * 2 % 2 ^ 32) (d * 2 % 2 ^ 32) generator_poly)
        | inr d_on ↦
            rw (spread, c_on, d_on)
              (doubled ∙ sym (xor_both (c * 2 % 2 ^ 32) (d * 2 % 2 ^ 32) generator_poly))
      ]
    ]

table_rounds-xor :
    (n c d : ℕ) → table_rounds n (bit_xor c d) ≡ bit_xor (table_rounds n c) (table_rounds n d)
unfolding table_rounds
table_rounds-xor zero c d = refl
table_rounds-xor (suc n) c d =
    ap (table_rounds n) (table_round-xor c d) ∙ table_rounds-xor n (table_round c) (table_round d)

table_entry-xor : (i j : ℕ) → table_entry (bit_xor i j) ≡ bit_xor (table_entry i) (table_entry j)
unfolding table_entry
table_entry-xor i j =
    ap (λ t. bit_and (table_rounds 8 t) 0x00FFFFFF) (shl-xor 16 i j)
    ∙ ap (λ t. bit_and t 0x00FFFFFF)
        (table_rounds-xor 8 (i * 2 ^ 16 % 2 ^ 32) (j * 2 ^ 16 % 2 ^ 32))
    ∙ bit_and-xor (table_rounds 8 (i * 2 ^ 16 % 2 ^ 32)) (table_rounds 8 (j * 2 ^ 16 % 2 ^ 32))
        0x00FFFFFF

index : ℕ → ℕ → ℕ
index rem b = bit_xor b (rem / 2 ^ 16 % 256)

index-xor : (r s b c : ℕ) → index (bit_xor r s) (bit_xor b c) ≡ bit_xor (index r b) (index s c)
unfolding index
index-xor r s b c =
    ap (λ t. bit_xor (bit_xor b c) (t % 256)) (bit_xor-shift_right 16 r s)
    ∙ ap (λ t. bit_xor (bit_xor b c) t) (mod_two_pow-xor 8 (r / 2 ^ 16) (s / 2 ^ 16))
    ∙ bit_xor_interchange b c (r / 2 ^ 16 % 256) (s / 2 ^ 16 % 256)

checksum_byte-xor :
    (r s b c : ℕ)
    → checksum_byte (bit_xor r s) (bit_xor b c) ≡ bit_xor (checksum_byte r b) (checksum_byte s c)
unfolding checksum_byte index
checksum_byte-xor r s b c =
    ap (λ t. bit_and (bit_xor t (table_entry (index (bit_xor r s) (bit_xor b c)))) 0x00FFFFFF)
      (shl-xor 8 r s)
    ∙ ap (λ t. bit_and (bit_xor (bit_xor (r * 2 ^ 8 % 2 ^ 32) (s * 2 ^ 8 % 2 ^ 32)) t) 0x00FFFFFF)
        (ap table_entry (index-xor r s b c) ∙ table_entry-xor (index r b) (index s c))
    ∙ ap (λ t. bit_and t 0x00FFFFFF)
        (bit_xor_interchange (r * 2 ^ 8 % 2 ^ 32) (s * 2 ^ 8 % 2 ^ 32) (table_entry (index r b))
          (table_entry (index s c)))
    ∙ bit_and-xor (bit_xor (r * 2 ^ 8 % 2 ^ 32) (table_entry (index r b)))
        (bit_xor (s * 2 ^ 8 % 2 ^ 32) (table_entry (index s c))) 0x00FFFFFF

-- Two frames of the same length, bit by bit.
unfoldable pub xor_bytes : List ℕ → List ℕ → List ℕ
xor_bytes [] ys = []
xor_bytes (x ∷ xs) [] = []
xor_bytes (x ∷ xs) (y ∷ ys) = bit_xor x y ∷ xor_bytes xs ys

checksum_from-xor :
    (r s : ℕ) (xs ys : List ℕ)
    → length xs ≡ length ys
    → checksum_from (bit_xor r s) (xor_bytes xs ys)
      ≡ bit_xor (checksum_from r xs) (checksum_from s ys)
unfolding checksum_from xor_bytes
checksum_from-xor r s [] [] e = refl
checksum_from-xor r s [] (y ∷ ys) e = absurd (omega arith)
checksum_from-xor r s (x ∷ xs) [] e = absurd (omega arith)
checksum_from-xor r s (x ∷ xs) (y ∷ ys) e =
    ap (λ t. checksum_from t (xor_bytes xs ys)) (checksum_byte-xor r s x y)
    ∙ checksum_from-xor (checksum_byte r x) (checksum_byte s y) xs ys (omega arith)

-- The checksum is linear: that of the difference of two frames of the same length is the
-- difference of their checksums.
pub checksum-xor_bytes :
    (xs ys : List ℕ)
    → length xs ≡ length ys
    → checksum (xor_bytes xs ys) ≡ bit_xor (checksum xs) (checksum ys)
unfolding checksum
checksum-xor_bytes xs ys e = checksum_from-xor 0 0 xs ys e
