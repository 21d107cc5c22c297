-- ===== src/Base/Bits.antt =====
-- Laws of the bit operations at every width, from one equation for the lowest digit of each.
mod Step
use Prim.Native.Nat.{
  ℕ, zero, suc, ◌+◌, ◌-◌, ◌*◌, ◌/◌, ◌%◌, ◌^◌, ◌≤◌, ◌<◌, bit_and, bit_or, bit_xor, max, min,
}
use mathlib.Core.Path.{◌≡◌, refl, ap, ◌∙◌, sym}
use native.Mathlib.Omega.{arith}
use mathlib.Core.Logic.{◌⊎◌, inl, inr}
use native.Mathlib.Nat.{div-div-eq-div-mul, pow-suc, one-le-pow, le_refl}
use Step.{bit_or_step, bit_and_step, bit_xor_step}

-- `digits` stands here for a number of rounds that is enough for the operands.
or-zero_below : (n a : ℕ) → a ≤ n → bit_or a 0 ≡ a
or-zero_below n zero h = refl
or-zero_below zero (suc a) h = absurd (omega arith)
or-zero_below (suc n) (suc a) h =
    omega (arith, bit_or_step (suc a) 0, or-zero_below n (suc a / 2) (omega arith))

pub bit_or-zero : (a : ℕ) → bit_or a 0 ≡ a
bit_or-zero a = or-zero_below a a (le_refl a)

and-zero_below : (n a : ℕ) → a ≤ n → bit_and a 0 ≡ 0
and-zero_below n zero h = refl
and-zero_below zero (suc a) h = absurd (omega arith)
and-zero_below (suc n) (suc a) h =
    omega (arith, bit_and_step (suc a) 0, and-zero_below n (suc a / 2) (omega arith))

pub bit_and-zero : (a : ℕ) → bit_and a 0 ≡ 0
bit_and-zero a = and-zero_below a a (le_refl a)

double-two-pow : (hi w : ℕ) → 2 * (hi * 2 ^ w) ≡ hi * 2 ^ suc w
double-two-pow hi w = omega (arith, ap (λ (t : ℕ). hi * t) (pow-suc 2 w))

-- `lo | hi << w` is a sum when `lo` fits in `w` bits.
pub bit_or-disjoint : (w hi lo : ℕ) → lo < 2 ^ w → bit_or (hi * 2 ^ w) lo ≡ hi * 2 ^ w + lo
bit_or-disjoint zero hi lo small = ground (arith, bit_or-zero hi)
bit_or-disjoint (suc w) hi lo small =
    let below = bit_or-disjoint w hi (lo / 2) (omega arith) in
    ground (arith, double-two-pow hi w, bit_or_step (hi * 2 ^ suc w) lo, below)

or_comm_below : (n a b : ℕ) → a ≤ n → b ≤ n → bit_or a b ≡ bit_or b a
or_comm_below zero a b p q =
    let ea : a ≡ 0 = omega arith in let eb : b ≡ 0 = omega arith in rw (ea, eb) refl
or_comm_below (suc n) a b p q = omega (
  arith,
  bit_or_step a b,
  bit_or_step b a,
  or_comm_below n (a / 2) (b / 2) (omega arith) (omega arith),
)

pub bit_or_comm : (a b : ℕ) → bit_or a b ≡ bit_or b a
bit_or_comm a b = or_comm_below (a + b) a b (omega arith) (omega arith)

and_low : (w hi lo : ℕ) → lo < 2 ^ w → bit_and (hi * 2 ^ w + lo) (2 ^ w - 1) ≡ lo
and_low zero hi lo small = rw bit_and-zero (omega arith)
and_low (suc w) hi lo small =
    let below = and_low w hi (lo / 2) (omega arith) in
    let lowest = bit_and_step (hi * 2 ^ suc w + lo) (2 ^ suc w - 1) in
    ground (arith, below, lowest, pow-suc 2 w, double-two-pow hi w)

-- The mask with `w` ones takes the remainder by `2 ^ w`.
pub bit_and-mask : (w x : ℕ) → bit_and x (2 ^ w - 1) ≡ x % 2 ^ w
bit_and-mask w x = ground (arith, and_low w (x / 2 ^ w) (x % 2 ^ w), one-le-pow w 2)

pub bit_and-one : (a : ℕ) → bit_and a 1 ≡ a % 2
bit_and-one a = bit_and-mask 1 a

-- Exclusive or: its halves and its lowest digit determine it.
pub bit_xor-half : (a b : ℕ) → bit_xor a b / 2 ≡ bit_xor (a / 2) (b / 2)
bit_xor-half a b = omega (arith, bit_xor_step a b)

pub bit_xor-mod : (a b : ℕ) → bit_xor a b % 2 ≡ (a + b) % 2
bit_xor-mod a b = omega (arith, bit_xor_step a b)

xor_comm_below : (n a b : ℕ) → a ≤ n → b ≤ n → bit_xor a b ≡ bit_xor b a
xor_comm_below zero a b p q =
    let ea : a ≡ 0 = omega arith in let eb : b ≡ 0 = omega arith in rw (ea, eb) refl
xor_comm_below (suc n) a b p q = omega (
  arith,
  bit_xor_step a b,
  bit_xor_step b a,
  xor_comm_below n (a / 2) (b / 2) (omega arith) (omega arith),
)

pub bit_xor_comm : (a b : ℕ) → bit_xor a b ≡ bit_xor b a
bit_xor_comm a b = xor_comm_below (a + b) a b (omega arith) (omega arith)

xor_assoc_below :
    (n a b c : ℕ) → a ≤ n → b ≤ n → c ≤ n → bit_xor (bit_xor a b) c ≡ bit_xor a (bit_xor b c)
xor_assoc_below zero a b c p q r =
    let ea : a ≡ 0 = omega arith in
    let eb : b ≡ 0 = omega arith in let ec : c ≡ 0 = omega arith in rw (ea, eb, ec) refl
xor_assoc_below (suc n) a b c p q r = omega (
  arith,
  bit_xor_step (bit_xor a b) c,
  bit_xor_step a (bit_xor b c),
  bit_xor-mod a b,
  bit_xor-mod b c,
  ap (λ (t : ℕ). bit_xor t (c / 2)) (bit_xor-half a b),
  ap (λ (t : ℕ). bit_xor (a / 2) t) (bit_xor-half b c),
  xor_assoc_below n (a / 2) (b / 2) (c / 2) (omega arith) (omega arith) (omega arith),
)

pub bit_xor_assoc : (a b c : ℕ) → bit_xor (bit_xor a b) c ≡ bit_xor a (bit_xor b c)
bit_xor_assoc a b c = xor_assoc_below (a + b + c) a b c (omega arith) (omega arith) (omega arith)

xor-zero_below : (n a : ℕ) → a ≤ n → bit_xor a 0 ≡ a
xor-zero_below n zero h = refl
xor-zero_below zero (suc a) h = absurd (omega arith)
xor-zero_below (suc n) (suc a) h =
    omega (arith, bit_xor_step (suc a) 0, xor-zero_below n (suc a / 2) (omega arith))

pub bit_xor-zero : (a : ℕ) → bit_xor a 0 ≡ a
bit_xor-zero a = xor-zero_below a a (le_refl a)

xor_self_below : (n a : ℕ) → a ≤ n → bit_xor a a ≡ 0
xor_self_below n zero h = refl
xor_self_below zero (suc a) h = absurd (omega arith)
xor_self_below (suc n) (suc a) h =
    omega (arith, bit_xor_step (suc a) (suc a), xor_self_below n (suc a / 2) (omega arith))

pub bit_xor_self : (a : ℕ) → bit_xor a a ≡ 0
bit_xor_self a = xor_self_below a a (le_refl a)

-- Applying the same mask twice changes nothing.
pub bit_xor_cancel : (a b : ℕ) → bit_xor (bit_xor a b) b ≡ a
bit_xor_cancel a b = bit_xor_assoc a b b ∙ ap (λ t. bit_xor a t) (bit_xor_self b) ∙ bit_xor-zero a

pub bit_xor-lt : (k a b : ℕ) → a < 2 ^ k → b < 2 ^ k → bit_xor a b < 2 ^ k
bit_xor-lt zero a b p q =
    let ea : a ≡ 0 = omega arith in let eb : b ≡ 0 = omega arith in rw (ea, eb) (omega arith)
bit_xor-lt (suc k) a b p q =
    omega (
      arith,
      bit_xor_step a b,
      pow-suc 2 k,
      bit_xor-lt k (a / 2) (b / 2) (omega arith) (omega arith),
    )

and_half : (a m : ℕ) → bit_and a m / 2 ≡ bit_and (a / 2) (m / 2)
and_half a m = omega (arith, bit_and_step a m)

-- A mask goes through an exclusive or.
and_xor_below :
    (n a b m : ℕ) → m ≤ n → bit_and (bit_xor a b) m ≡ bit_xor (bit_and a m) (bit_and b m)
and_xor_below zero a b m p =
    let em : m ≡ 0 = omega arith in
    rw (em, bit_and-zero (bit_xor a b), bit_and-zero a, bit_and-zero b) refl
and_xor_below (suc n) a b m p = omega (
  arith,
  bit_and_step (bit_xor a b) m,
  bit_xor_step (bit_and a m) (bit_and b m),
  bit_xor-mod a b,
  bit_and_step a m,
  bit_and_step b m,
  ap (λ (t : ℕ). bit_and t (m / 2)) (bit_xor-half a b),
  and_half a m,
  and_half b m,
  ap (λ (t : ℕ). bit_xor t (bit_and b m / 2)) (and_half a m),
  ap (λ (t : ℕ). bit_xor (bit_and (a / 2) (m / 2)) t) (and_half b m),
  and_xor_below n (a / 2) (b / 2) (m / 2) (omega arith),
)

pub bit_and-xor : (a b m : ℕ) → bit_and (bit_xor a b) m ≡ bit_xor (bit_and a m) (bit_and b m)
bit_and-xor a b m = and_xor_below m a b m (le_refl m)

-- One digit of a number, by its mask.
pub bit_and-two_pow : (k a : ℕ) → (bit_and a (2 ^ k) ≡ 0) ⊎ (bit_and a (2 ^ k) ≡ 2 ^ k)
bit_and-two_pow zero a = ground (arith, bit_and-one a)
bit_and-two_pow (suc k) a =
    let half : 2 ^ suc k / 2 ≡ 2 ^ k = omega (arith, pow-suc 2 k) in
    let up =
      bit_and_step a (2 ^ suc k)
      ∙ ap (λ (t : ℕ). bit_and (a / 2) t * 2 + min (a % 2) (2 ^ suc k % 2)) half in
    elim (bit_and-two_pow k (a / 2)) [
      | inl off ↦ inl (omega (arith, up, off, pow-suc 2 k))
      | inr on ↦ inr (omega (arith, up, on, pow-suc 2 k))
    ]

bit_xor-double : (a b : ℕ) → bit_xor (a * 2) (b * 2) ≡ bit_xor a b * 2
bit_xor-double a b =
    let ha : a * 2 / 2 ≡ a = omega arith in
    let hb : b * 2 / 2 ≡ b = omega arith in
    omega (
      arith,
      bit_xor_step (a * 2) (b * 2),
      ap (λ (t : ℕ). bit_xor t (b * 2 / 2)) ha,
      ap (λ (t : ℕ). bit_xor a t) hb,
    )

-- A shift to the left goes through an exclusive or.
pub bit_xor-shift : (k a b : ℕ) → bit_xor (a * 2 ^ k) (b * 2 ^ k) ≡ bit_xor a b * 2 ^ k
bit_xor-shift zero a b =
    let ea : a * 2 ^ 0 ≡ a = omega arith in
    let eb : b * 2 ^ 0 ≡ b = omega arith in
    let ex : bit_xor a b * 2 ^ 0 ≡ bit_xor a b = omega arith in
    ap (λ (t : ℕ). bit_xor t (b * 2 ^ 0)) ea ∙ ap (λ (t : ℕ). bit_xor a t) eb ∙ sym ex
bit_xor-shift (suc k) a b =
    ap (λ (t : ℕ). bit_xor t (b * 2 ^ suc k)) (shifted a)
    ∙ ap (λ (t : ℕ). bit_xor (a * 2 ^ k * 2) t) (shifted b)
    ∙ bit_xor-double (a * 2 ^ k) (b * 2 ^ k)
    ∙ ap (λ (t : ℕ). t * 2) (bit_xor-shift k a b)
    ∙ sym (shifted (bit_xor a b))
  where
    shifted : (x : ℕ) → x * 2 ^ suc k ≡ x * 2 ^ k * 2
    shifted x = omega (arith, double-two-pow x k)

-- And so does a shift to the right.
pub bit_xor-shift_right : (k a b : ℕ) → bit_xor a b / 2 ^ k ≡ bit_xor (a / 2 ^ k) (b / 2 ^ k)
bit_xor-shift_right zero a b =
    div-one (bit_xor a b)
    ∙ sym (ap (λ (t : ℕ). bit_xor t (b / 1)) (div-one a) ∙ ap (λ (t : ℕ). bit_xor a t) (div-one b))
  where
    div-one : (x : ℕ) → x / 1 ≡ x
    div-one x = omega arith
bit_xor-shift_right (suc k) a b =
    halves (bit_xor a b)
    ∙ ap (λ (t : ℕ). t / 2 ^ k) (bit_xor-half a b)
    ∙ bit_xor-shift_right k (a / 2) (b / 2)
    ∙ sym (
        ap (λ (t : ℕ). bit_xor t (b / 2 ^ suc k)) (halves a)
        ∙ ap (λ (t : ℕ). bit_xor (a / 2 / 2 ^ k) t) (halves b))
  where
    halves : (x : ℕ) → x / 2 ^ suc k ≡ x / 2 / 2 ^ k
    halves x =
        ap (λ (t : ℕ). x / t) (omega (arith, pow-suc 2 k)) ∙ sym (div-div-eq-div-mul x 2 (2 ^ k))

-- The two middle ones of four change places.
pub bit_xor_interchange :
    (a b c d : ℕ) → bit_xor (bit_xor a b) (bit_xor c d) ≡ bit_xor (bit_xor a c) (bit_xor b d)
bit_xor_interchange a b c d =
    bit_xor_assoc a b (bit_xor c d)
    ∙ ap (λ t. bit_xor a t)
        (sym (bit_xor_assoc b c d) ∙ ap (λ t. bit_xor t d) (bit_xor_comm b c) ∙ bit_xor_assoc c b d)
    ∙ sym (bit_xor_assoc a c (bit_xor b d))
