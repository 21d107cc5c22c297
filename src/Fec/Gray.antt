-- ===== src/Fec/Gray.antt =====
-- The reflected Gray code, crates/dsp/src/fec/gray.rs.
mod Tests
use omnimodem.Base.{
  ℕ, zero, suc, ◌+◌, ◌-◌, ◌*◌, ◌/◌, ◌%◌, ◌^◌, ◌≤◌, ◌<◌, ◌≡◌, refl, sym, ap, ◌∙◌, Option, none, some,
  bit_xor, arith, ◌==◌, if◌then◌else◌, inl, inr, Bool-cases, ==_iff, true, false,
}
use native.Mathlib.Decide.{dec_lt}
use native.Mathlib.Nat.{pow-suc, one-le-pow}
use omnimodem.Base.Bits.{
  bit_xor-half, bit_xor-mod, bit_xor_interchange, bit_xor_assoc, bit_xor_cancel, bit_xor_comm,
  bit_xor-zero, bit_xor_self, bit_xor-lt,
}

unfoldable pub gray_encode : ℕ → ℕ
gray_encode n = bit_xor n (n / 2)

-- `while g != 0 { n ^= g; g >>= 1; }` with the rounds left; `none` means that they ran out.
gray_loop : ℕ → ℕ → ℕ → Option ℕ
gray_loop zero g n = if g == 0 then some n else none
gray_loop (suc rounds) g n =
    let rest = gray_loop rounds (g / 2) (bit_xor n g) in if g == 0 then some n else rest

-- A `u32` is zero after 32 shifts.
unfoldable pub gray_decode : ℕ → Option ℕ
unfolding gray_loop
gray_decode g = gray_loop 32 g 0

gray-half : (n : ℕ) → gray_encode n / 2 ≡ gray_encode (n / 2)
unfolding gray_encode
gray-half n = bit_xor-half n (n / 2)

zero-xor : (n : ℕ) → bit_xor 0 n ≡ n
zero-xor n = bit_xor_comm 0 n ∙ bit_xor-zero n

gray-zero : (n : ℕ) → gray_encode n ≡ 0 → n ≡ 0
unfolding gray_encode
gray-zero n e =
    let back : n / 2 ≡ n =
      sym (zero-xor (n / 2)) ∙ ap (λ t. bit_xor t (n / 2)) (sym e) ∙ bit_xor_cancel n (n / 2) in
    omega arith

-- The rounds fold the code `n ^ (n >> 1)` back to `n`, half by half.
regroup : (acc n : ℕ) → bit_xor (bit_xor acc (gray_encode n)) (n / 2) ≡ bit_xor acc n
unfolding gray_encode
regroup acc n =
    bit_xor_assoc acc (bit_xor n (n / 2)) (n / 2)
    ∙ ap (λ t. bit_xor acc t) (bit_xor_cancel n (n / 2))

gray_loop-gray_encode :
    (rounds n acc : ℕ)
    → n < 2 ^ rounds
    → gray_loop rounds (gray_encode n) acc ≡ some (bit_xor acc n)
unfolding gray_loop
gray_loop-gray_encode zero n acc h =
    let e : n ≡ 0 = omega arith in rw (e, bit_xor-zero acc) (unfold gray_encode in refl)
gray_loop-gray_encode (suc rounds) n acc h = elim (Bool-cases (gray_encode n == 0)) [
  | inl done ↦
      let e : n ≡ 0 = gray-zero n ((==_iff (gray_encode n) 0).0 done) in
      rw (done, e, bit_xor-zero acc) refl
  | inr more ↦
      rw (more, gray-half n)
        (gray_loop-gray_encode rounds (n / 2) (bit_xor acc (gray_encode n))
            (omega (arith, pow-suc 2 rounds))
          ∙ ap some (regroup acc n))
]

-- Every `u32` is decoded from its Gray code within the 32 rounds.
pub gray_decode-gray_encode : (n : ℕ) → n < 2 ^ 32 → gray_decode (gray_encode n) ≡ some n
unfolding gray_decode
gray_decode-gray_encode n h = gray_loop-gray_encode 32 n 0 h ∙ ap some (zero-xor n)

lt-two-pow : (n : ℕ) → n < 2 ^ n
lt-two-pow zero = omega arith
lt-two-pow (suc n) = omega (arith, pow-suc 2 n, lt-two-pow n)

-- The bits in which `n` and `n + 1` differ are a block of ones at the low end.
carry_block : (fuel n : ℕ) → n < 2 ^ fuel → (k : ℕ) × (bit_xor n (n + 1) + 1 ≡ 2 ^ suc k)
carry_block zero n h = let e : n ≡ 0 = omega arith in rw e (0, refl)
carry_block (suc fuel) n h = elim (dec_lt (n % 2) 1) [
  | yes even ↦ (
    0,
    omega (
      arith,
      bit_xor-half n (n + 1),
      bit_xor-mod n (n + 1),
      bit_xor_self (n / 2),
      ap (λ (t : ℕ). bit_xor (n / 2) t) (stays even),
    ),
  )
  | no odd ↦
      (let (k, e) = carry_block fuel (n / 2) (omega (arith, pow-suc 2 fuel)) in
        (
          suc k,
          omega (
            arith,
            e,
            pow-suc 2 (suc k),
            bit_xor-half n (n + 1),
            bit_xor-mod n (n + 1),
            ap (λ (t : ℕ). bit_xor (n / 2) t) (moves odd),
          ),
        ))
]
  where
    stays : n % 2 < 1 → (n + 1) / 2 ≡ n / 2
    stays even = omega arith

    moves : ¬ (n % 2 < 1) → (n + 1) / 2 ≡ n / 2 + 1
    moves odd = omega arith

block-half : (k : ℕ) → (2 ^ suc (suc k) - 1) / 2 ≡ 2 ^ suc k - 1
block-half k = omega (arith, pow-suc 2 (suc k), one-le-pow (suc k) 2)

block_edge : (k : ℕ) → bit_xor (2 ^ suc k - 1) ((2 ^ suc k - 1) / 2) ≡ 2 ^ k
block_edge zero = refl
block_edge (suc k) = omega (
  arith,
  pow-suc 2 (suc k),
  pow-suc 2 k,
  one-le-pow k 2,
  bit_xor-half (2 ^ suc (suc k) - 1) ((2 ^ suc (suc k) - 1) / 2),
  bit_xor-mod (2 ^ suc (suc k) - 1) ((2 ^ suc (suc k) - 1) / 2),
  ap (λ (t : ℕ). bit_xor t (t / 2)) (block-half k),
  block_edge k,
)

-- Neighbours differ in exactly one bit of their codes.
pub gray_encode-suc : (n : ℕ) → (k : ℕ) × (bit_xor (gray_encode n) (gray_encode (n + 1)) ≡ 2 ^ k)
unfolding gray_encode
gray_encode-suc n =
    let (k, e) = carry_block n n (lt-two-pow n) in
    let block : bit_xor n (n + 1) ≡ 2 ^ suc k - 1 = omega arith in
    (
      k,
      bit_xor_interchange n (n / 2) (n + 1) ((n + 1) / 2)
          ∙ ap (λ t. bit_xor (bit_xor n (n + 1)) t) (sym (bit_xor-half n (n + 1)))
          ∙ ap (λ t. bit_xor t (t / 2)) block
          ∙ block_edge k,
    )
