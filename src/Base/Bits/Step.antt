-- ===== src/Base/Bits/Step.antt =====
-- The native bit operations stand for a recursion on binary digits with a count of rounds. Here
-- the count is dropped: one equation for the lowest digit of each operation.
use Prim.Native.Nat.{
  ℕ, zero, suc, ◌+◌, ◌-◌, ◌*◌, ◌/◌, ◌%◌, ◌≤◌, ◌<◌, bit_and, bit_or, bit_xor, max, min, differ,
  digits, bitwise, bit_and-bitwise, bit_or-bitwise, bit_xor-bitwise,
}
use mathlib.Core.Path.{◌≡◌, refl, ap, ◌∙◌}
use native.Mathlib.Omega.{arith}

module _ (stop : ℕ → ℕ) (op : ℕ → ℕ → ℕ) where
  -- A round more than the number needs changes nothing.
  one_more :
      (x rounds y : ℕ) → x ≤ rounds → digits stop op (suc rounds) x y ≡ digits stop op rounds x y
  one_more zero zero y enough = refl
  one_more zero (suc rounds) y enough = refl
  one_more (suc x) zero y enough = absurd (omega arith)
  one_more (suc x) (suc rounds) y enough =
      rw (one_more (suc x / 2) rounds (y / 2) (omega arith)) refl

  many_more : (extra x y : ℕ) → digits stop op (extra + x) x y ≡ bitwise stop op x y
  many_more zero x y = ap (λ t. digits stop op t x y) (omega arith)
  many_more (suc extra) x y =
      let regroup : suc extra + x ≡ suc (extra + x) = omega arith in
      ap (λ t. digits stop op t x y) regroup
      ∙ one_more x (extra + x) y (omega arith)
      ∙ many_more extra x y

  lowest :
      (x y : ℕ)
      → bitwise stop op (suc x) y ≡ op (suc x % 2) (y % 2) + 2 * bitwise stop op (suc x / 2) (y / 2)
  lowest x y =
      let spare : x ≡ (x - suc x / 2) + suc x / 2 = omega arith in
      let enough =
        ap (λ t. digits stop op t (suc x / 2) (y / 2)) spare
        ∙ many_more (x - suc x / 2) (suc x / 2) (y / 2) in
      omega (arith, enough)

differ-sum : (x y : ℕ) → x < 2 → y < 2 → differ x y ≡ (x + y) % 2
differ-sum zero y p q = omega arith
differ-sum (suc x) zero p q = omega arith
differ-sum (suc zero) (suc zero) p q = refl
differ-sum (suc zero) (suc (suc y)) p q = absurd (omega arith)
differ-sum (suc (suc x)) (suc y) p q = absurd (omega arith)

xor_differ : (x y : ℕ) → bit_xor x y ≡ differ (x % 2) (y % 2) + 2 * bit_xor (x / 2) (y / 2)
xor_differ zero y = simp bit_xor-bitwise (omega (arith, differ-sum 0 (y % 2)))
xor_differ (suc x) y = simp bit_xor-bitwise (lowest (λ t. t) differ x y)

pub bit_xor_step : (x y : ℕ) → bit_xor x y ≡ bit_xor (x / 2) (y / 2) * 2 + (x + y) % 2
bit_xor_step x y = omega (arith, xor_differ x y, differ-sum (x % 2) (y % 2))

or_lowest : (x y : ℕ) → bit_or x y ≡ max (x % 2) (y % 2) + 2 * bit_or (x / 2) (y / 2)
or_lowest zero y = simp bit_or-bitwise (omega arith)
or_lowest (suc x) y = simp bit_or-bitwise (lowest (λ t. t) max x y)

pub bit_or_step : (x y : ℕ) → bit_or x y ≡ bit_or (x / 2) (y / 2) * 2 + max (x % 2) (y % 2)
bit_or_step x y = omega (arith, or_lowest x y)

and_lowest : (x y : ℕ) → bit_and x y ≡ min (x % 2) (y % 2) + 2 * bit_and (x / 2) (y / 2)
and_lowest zero y = simp bit_and-bitwise (omega arith)
and_lowest (suc x) y = simp bit_and-bitwise (lowest (λ t. 0) min x y)

pub bit_and_step : (x y : ℕ) → bit_and x y ≡ bit_and (x / 2) (y / 2) * 2 + min (x % 2) (y % 2)
bit_and_step x y = omega (arith, and_lowest x y)
