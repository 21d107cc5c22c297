-- ===== src/Framing/Pack77/Bits.antt =====
-- A field, through its bits, and the fields of a frame.
use native.Mathlib.Nat.{pow-suc}
use omnimodem.Base.{
  ℕ, zero, suc, ◌*◌, ◌/◌, ◌%◌, ◌^◌, ◌<◌, bit_or, ◌≡◌, refl, ap, ◌∙◌, List, [], ◌∷◌, ◌++◌, take,
  drop, get_or, arith,
}
use omnimodem.Base.Bits.{bit_or-disjoint}
use omnimodem.Framing.Pack77.{
  shr, push_bits, frame, bits_from, bits_to_u32, unpack_fields, unpack77_standard,
}

push_last : (v n : ℕ) → push_bits v (suc n) ≡ push_bits (v / 2) n ++ (v % 2 ∷ [])
unfolding push_bits shr
push_last v zero = refl
push_last v (suc n) = ap (λ bits. shr n (v / 2) % 2 ∷ bits) (push_last v n)

bits_from_last :
    (acc b : ℕ) (bits : List ℕ)
    → bits_from acc (bits ++ (b ∷ [])) ≡ bit_or (bits_from acc bits * 2 % 2 ^ 32) b
unfolding bits_from
bits_from_last acc b [] = refl
bits_from_last acc b (c ∷ bits) = bits_from_last (bit_or (acc * 2 % 2 ^ 32) c) b bits

doubled : (v : ℕ) → v < 2 ^ 32 → bit_or (v / 2 * 2 % 2 ^ 32) (v % 2) ≡ v
doubled v h =
    let whole : v / 2 * 2 % 2 ^ 32 ≡ v / 2 * 2 ^ 1 = omega arith in
    rw whole (bit_or-disjoint 1 (v / 2) (v % 2) (omega arith) ∙ omega arith)

pub bits_to_u32-push_bits : (n v : ℕ) → v < 2 ^ n → v < 2 ^ 32 → bits_to_u32 (push_bits v n) ≡ v
unfolding bits_to_u32 push_bits bits_from
bits_to_u32-push_bits zero v h fits = omega arith
bits_to_u32-push_bits (suc n) v h fits =
    let half : v / 2 < 2 ^ n = omega (arith, pow-suc 2 n) in
    let rest : bits_from 0 (push_bits (v / 2) n) ≡ v / 2 =
      bits_to_u32-push_bits n (v / 2) half (omega arith) in
    ap (bits_from 0) (push_last v n)
    ∙ bits_from_last 0 (v % 2) (push_bits (v / 2) n)
    ∙ ap (λ x. bit_or (x * 2 % 2 ^ 32) (v % 2)) rest
    ∙ doubled v fits

slices :
    (n28a n28b ir igrid4 : ℕ)
    → let bits = frame n28a n28b ir igrid4 in
      (take 3 (drop 74 bits) ≡ push_bits 1 3)
      × (take 28 bits ≡ push_bits n28a 28)
      × (take 28 (drop 29 bits) ≡ push_bits n28b 28)
      × (get_or bits 58 0 ≡ ir % 2)
      × (take 15 (drop 59 bits) ≡ push_bits igrid4 15)
unfolding frame push_bits shr
slices n28a n28b ir igrid4 = (refl, refl, refl, refl, refl)

-- The fields of a frame are read where they were written.
pub unpack77_standard-frame :
    (n28a n28b ir igrid4 : ℕ)
    → n28a < 2 ^ 28
    → n28b < 2 ^ 28
    → ir < 2
    → igrid4 < 2 ^ 15
    → unpack77_standard (frame n28a n28b ir igrid4) ≡ unpack_fields n28a n28b ir igrid4
unfolding unpack77_standard
unpack77_standard-frame n28a n28b ir igrid4 ha hb hr hg =
    let (s0, s1, s2, s3, s4) = slices n28a n28b ir igrid4 in
    let f0 = bits_to_u32-push_bits 3 1 (omega arith) (omega arith) in
    let f1 = bits_to_u32-push_bits 28 n28a ha (omega arith) in
    let f2 = bits_to_u32-push_bits 28 n28b hb (omega arith) in
    let f3 : ir % 2 ≡ ir = omega arith in
    let f4 = bits_to_u32-push_bits 15 igrid4 hg (omega arith) in
    rw (s0, s1, s2, s3, s4, f0, f1, f2, f3, f4) refl
