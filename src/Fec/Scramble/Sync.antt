-- ===== src/Fec/Scramble/Sync.antt =====
-- Lemmas on the G3RUH scrambler and its register.
use omnimodem.Base.{
  ℕ, zero, suc, ◌+◌, ◌-◌, ◌*◌, ◌/◌, ◌%◌, ◌^◌, ◌≤◌, ◌<◌, ◌≡◌, refl, sym, ap, ◌∙◌, List, [], ◌∷◌,
  bit_and, bit_or, bit_xor, arith, length,
}
use native.Mathlib.Nat.{pow-suc, add-mul-mod_self_right, div-add-mod', mul_comm, add-zero, add-suc}
use omnimodem.Base.Bits.{bit_and-one, bit_and-mask, bit_or-disjoint, bit_xor_cancel, bit_xor-lt}
use omnimodem.Fec.Nrzi.{AreBits}
use omnimodem.Fec.Scramble.{taps, shift_in, scramble_bit, descramble_bit, scramble, descramble}

taps-lt : (shift : ℕ) → taps shift < 2
unfolding taps
taps-lt shift = bit_xor-lt 1 _ _ (ground arith) (ground arith)

-- One bit there and back: the same register, and the bit.
descramble-scramble_bit :
    (shift b : ℕ)
    → b < 2
    → descramble_bit shift (scramble_bit shift b).1 ≡ ((scramble_bit shift b).0, b)
unfolding scramble_bit descramble_bit
descramble-scramble_bit shift b h =
    rw (low, bit_xor_cancel (bit_and b 1) (taps shift), bit_and-one b, small) refl
  where
    small : b % 2 ≡ b
    small = omega arith

    low : bit_and (bit_xor (bit_and b 1) (taps shift)) 1 ≡ bit_xor (bit_and b 1) (taps shift)
    low = omega (
      arith,
      bit_and-one (bit_xor (bit_and b 1) (taps shift)),
      bit_xor-lt 1 (bit_and b 1) (taps shift) (omega (arith, bit_and-one b)) (taps-lt shift),
    )

-- Descrambling the channel bits from the same register gives the bits back, and leaves both
-- registers equal again.
pub descramble-scramble :
    (shift : ℕ) (bits : List ℕ)
    → AreBits bits
    → descramble shift (scramble shift bits).1 ≡ ((scramble shift bits).0, bits)
unfolding scramble descramble
descramble-scramble shift [] h = refl
descramble-scramble shift (b ∷ bits) h =
    rw (descramble-scramble_bit shift b h.0, descramble-scramble (scramble_bit shift b).0 bits h.1)
      refl

shift_in_lem :
    (shift bit : ℕ) → shift < 2 ^ 17 → bit < 2 → shift_in shift bit ≡ (shift * 2 + bit) % 2 ^ 17
unfolding shift_in
shift_in_lem shift bit hs hb =
    bit_and-mask 17 (bit_or (shift * 2 % 2 ^ 32) bit)
    ∙ ap (λ t. t % 2 ^ 17) (ap (λ t. bit_or t bit) room ∙ bit_or-disjoint 1 shift bit hb)
  where
    room : shift * 2 % 2 ^ 32 ≡ shift * 2
    room = omega arith

-- The number that a list of bits spells, the oldest bit first.
value : List ℕ → ℕ
value [] = 0
value (c ∷ cs) = c * 2 ^ length cs + value cs

-- A remainder may be put back before it is moved up: `x` is the register and the new bit.
move_up : (x p v m : ℕ) → (x % m * p + v) % m ≡ (x * p + v) % m
move_up x p v m =
    sym (add-mul-mod_self_right (x % m * p + v) (x / m * p) m)
    ∙ ap (λ t. t % m)
        (omega (
          arith,
          ap (λ (t : ℕ). t * p) (div-add-mod' x m),
          mul_comm (x / m * p) m,
          mul_comm (x / m) m,
        ))

register_step :
    (shift c : ℕ) → shift < 2 ^ 17 → c < 2 → (descramble_bit shift c).0 ≡ (shift * 2 + c) % 2 ^ 17
unfolding descramble_bit
register_step shift c hs hc = rw (bit_and-one c, low) (shift_in_lem shift c hs hc)
  where
    low : c % 2 ≡ c
    low = omega arith

-- The register is the old register, moved up by the number of bits, with the bits behind it.
descramble_register :
    (shift : ℕ) (chan : List ℕ)
    → shift < 2 ^ 17
    → AreBits chan
    → (descramble shift chan).0 ≡ (shift * 2 ^ length chan + value chan) % 2 ^ 17
unfolding descramble value
descramble_register shift [] hs h = omega arith
descramble_register shift (c ∷ cs) hs h = rw (register_step shift c hs h.0) (
    descramble_register ((shift * 2 + c) % 2 ^ 17) cs (omega arith) h.1
    ∙ move_up (shift * 2 + c) (2 ^ length cs) (value cs) (2 ^ 17)
    ∙ ap (λ t. t % 2 ^ 17) (omega (arith, ap (λ (t : ℕ). shift * t) (pow-suc 2 (length cs)))))

two-pow-add : (a b : ℕ) → 2 ^ (a + b) ≡ 2 ^ a * 2 ^ b
two-pow-add a zero = rw add-zero (omega arith)
two-pow-add a (suc b) =
    rw (add-suc a b, pow-suc 2 (a + b), pow-suc 2 b, two-pow-add a b) (omega arith)

-- What was in the register is gone after 17 bits.
forgets : (s v n : ℕ) → 17 ≤ n → (s * 2 ^ n + v) % 2 ^ 17 ≡ v % 2 ^ 17
forgets s v n h =
    ap (λ t. t % 2 ^ 17) (omega (arith, ap (λ (t : ℕ). s * t) split))
    ∙ add-mul-mod_self_right v (s * 2 ^ (n - 17)) (2 ^ 17)
  where
    whole : n - 17 + 17 ≡ n
    whole = omega arith

    split : 2 ^ n ≡ 2 ^ (n - 17) * 2 ^ 17
    split = ap (λ (t : ℕ). 2 ^ t) (sym whole) ∙ two-pow-add (n - 17) 17

-- A descrambler synchronises by itself: whatever was in the two registers, after 17 or more
-- channel bits they are equal, so that all later bits are descrambled alike.
pub descramble_self_sync :
    (s t : ℕ) (chan later : List ℕ)
    → s < 2 ^ 17
    → t < 2 ^ 17
    → AreBits chan
    → 17 ≤ length chan
    → descramble (descramble s chan).0 later ≡ descramble (descramble t chan).0 later
descramble_self_sync s t chan later hs ht h long =
    ap (λ r. descramble r later)
      (descramble_register s chan hs h
        ∙ forgets s (value chan) (length chan) long
        ∙ sym (forgets t (value chan) (length chan) long)
        ∙ sym (descramble_register t chan ht h))
