-- ===== src/Base/Text/Laws.antt =====
-- What is written as a number is read back, and a text that was joined at a separator is cut
-- there again.
use Prim.Native.Nat.{ℕ, zero, suc, ◌+◌, ◌*◌, ◌/◌, ◌%◌, ◌^◌, ◌≤◌, ◌<◌}
use mathlib.Core.Path.{◌≡◌, refl, ap, ◌∙◌}
use mathlib.Core.Logic.{◌≢◌, ◌⊎◌, inl, inr}
use mathlib.Core.Bool.{Bool, true, false}
use mathlib.Core.Option.{Option, none, some}
use mathlib.Core.List.{[], ◌∷◌, ◌++◌}
use native.Mathlib.Omega.{arith}
use native.Mathlib.Nat.{pow-suc}
use omnimodem.Base.Tests.{◌==◌, ltb, Bool-cases}
use omnimodem.Base.Lists.{All}
use omnimodem.Base.Table.{all_below, all_below_sound}
use omnimodem.Base.Text.{
  text_eq, Text, split_once, rsplit_once, to_digit, parse_digits, parse_uint, decimal_before,
  decimal, hex_digit, hex4,
}

abbrev pub Lacks : ℕ → Text → Type 0
Lacks sep text = All (λ c. c ≢ sep) text

ne→false : (a b : ℕ) → a ≢ b → (a == b) ≡ false
ne→false a b h = ground arith

self→true : (a : ℕ) → (a == a) ≡ true
self→true a = ground arith

pub split_once-Lacks : (sep : ℕ) (a : Text) → Lacks sep a → split_once sep a ≡ none
unfolding split_once
split_once-Lacks sep [] h = refl
split_once-Lacks sep (c ∷ cs) h = rw (ne→false c sep h.0, split_once-Lacks sep cs h.1) refl

pub split_once-append :
    (sep : ℕ) (a b : Text) → Lacks sep a → split_once sep (a ++ (sep ∷ b)) ≡ some (a, b)
unfolding split_once
split_once-append sep [] b h = rw (self→true sep) refl
split_once-append sep (c ∷ a) b h = rw (ne→false c sep h.0, split_once-append sep a b h.1) refl

rsplit_once-Lacks : (sep : ℕ) (b : Text) → Lacks sep b → rsplit_once sep b ≡ none
unfolding rsplit_once
rsplit_once-Lacks sep [] h = refl
rsplit_once-Lacks sep (c ∷ b) h = rw (rsplit_once-Lacks sep b h.1, ne→false c sep h.0) refl

pub rsplit_once-append :
    (sep : ℕ) (a b : Text) → Lacks sep b → rsplit_once sep (a ++ (sep ∷ b)) ≡ some (a, b)
unfolding rsplit_once
rsplit_once-append sep [] b h = rw (rsplit_once-Lacks sep b h, self→true sep) refl
rsplit_once-append sep (c ∷ a) b h = rw (rsplit_once-append sep a b h) refl

abbrev pub IsDigit : ℕ → Type 0
IsDigit c = (48 ≤ c) × (c ≤ 57)

decimal_before-IsDigit :
    (n v : ℕ) (rest : Text) → All IsDigit rest → All IsDigit (decimal_before n v rest)
unfolding decimal_before
decimal_before-IsDigit zero v rest h = h
decimal_before-IsDigit (suc n) v rest h = elim (Bool-cases (ltb v 10)) [
  | inl last ↦ rw last ((omega arith, ground arith), h)
  | inr more ↦
      rw more
        (decimal_before-IsDigit n (v / 10) ((48 + v % 10) ∷ rest) ((omega arith, omega arith), h))
]

digit_step :
    (radix limit acc c d : ℕ) (cs : Text)
    → to_digit radix c ≡ some d
    → acc * radix + d ≤ limit
    → parse_digits radix limit acc (c ∷ cs) ≡ parse_digits radix limit (acc * radix + d) cs
unfolding parse_digits
digit_step radix limit acc c d cs e h = rw (e, parse_digits, within) refl
  where
    within : ltb limit (acc * radix + d) ≡ false
    within = ground arith

decimal_digit : (d : ℕ) → d < 10 → to_digit 10 (48 + d) ≡ some d
unfolding to_digit
decimal_digit d h = ground arith

-- Reading goes on behind a number as if it had been read already.
parse-decimal_before :
    (limit n v : ℕ) (rest : Text)
    → v < 10 ^ n
    → v ≤ limit
    → parse_digits 10 limit 0 (decimal_before n v rest) ≡ parse_digits 10 limit v rest
unfolding decimal_before
parse-decimal_before limit zero v rest h fits = ap (λ t. parse_digits 10 limit t rest) (omega arith)
parse-decimal_before limit (suc n) v rest h fits = elim (Bool-cases (ltb v 10)) [
  | inl last ↦ rw last (
      digit_step 10 limit 0 (48 + v) v rest (decimal_digit v (ground arith)) (omega arith)
      ∙ ap (λ t. parse_digits 10 limit t rest) (omega arith))
  | inr more ↦ rw more (
      parse-decimal_before limit n (v / 10) ((48 + v % 10) ∷ rest) (omega (arith, pow-suc 10 n))
        (omega arith)
      ∙ digit_step 10 limit (v / 10) (48 + v % 10) (v % 10) rest
          (decimal_digit (v % 10) (omega arith)) (omega arith)
      ∙ ap (λ t. parse_digits 10 limit t rest) (omega arith))
]

-- Without a plus sign in front, reading is reading the digits.
parse_uint-IsDigit :
    (limit c : ℕ) (cs : Text)
    → IsDigit c
    → parse_uint 10 limit (c ∷ cs) ≡ parse_digits 10 limit 0 (c ∷ cs)
unfolding parse_uint
parse_uint-IsDigit limit c [] h = refl
parse_uint-IsDigit limit c (d ∷ cs) h = rw (ne→false c 43 (λ e. omega arith)) refl

digits_read :
    (limit v : ℕ) (text : Text)
    → All IsDigit text
    → text ≢ []
    → parse_digits 10 limit 0 text ≡ some v
    → parse_uint 10 limit text ≡ some v
digits_read limit v [] h full e = absurd (full refl)
digits_read limit v (c ∷ cs) h full e = parse_uint-IsDigit limit c cs h.0 ∙ e

pub decimal-IsDigit : (v : ℕ) → All IsDigit (decimal v)
unfolding decimal
decimal-IsDigit v = decimal_before-IsDigit 5 v [] tt

decimal_before-ne-nil : (n v c : ℕ) (rest : Text) → decimal_before n v (c ∷ rest) ≢ []
unfolding decimal_before
decimal_before-ne-nil zero v c rest e = cc
decimal_before-ne-nil (suc n) v c rest e = elim (Bool-cases (ltb v 10)) [
  | inl last ↦ cc (rw last at e)
  | inr more ↦ decimal_before-ne-nil n (v / 10) (48 + v % 10) (c ∷ rest) (rw more at e)
]

decimal-ne-nil : (v : ℕ) → decimal v ≢ []
unfolding decimal decimal_before
decimal-ne-nil v e = elim (Bool-cases (ltb v 10)) [
  | inl last ↦ cc (rw last at e)
  | inr more ↦ decimal_before-ne-nil 4 (v / 10) (48 + v % 10) [] (rw more at e)
]

-- A number of at most five digits is read back from its decimal digits.
pub parse_uint-decimal :
    (limit v : ℕ) → v < 100000 → v ≤ limit → parse_uint 10 limit (decimal v) ≡ some v
parse_uint-decimal limit v h fits =
    digits_read limit v (decimal v) (decimal-IsDigit v) (decimal-ne-nil v)
      (unfold decimal parse_digits in parse-decimal_before limit 5 v [] h fits)

pub IsDigit-Lacks :
    (sep : ℕ) (text : Text) → sep < 48 ⊎ 57 < sep → All IsDigit text → Lacks sep text
IsDigit-Lacks sep [] h d = tt
IsDigit-Lacks sep (c ∷ cs) h d = ((λ e. ground arith), IsDigit-Lacks sep cs h d.1)

abbrev same_digit : Option ℕ → ℕ → Bool
same_digit none d = false
same_digit (some e) d = e == d

same_digit→eq : (o : Option ℕ) (d : ℕ) → same_digit o d ≡ true → o ≡ some d
same_digit→eq none d h = cc
same_digit→eq (some e) d h = ground arith

hex_table : all_below 16 (λ d. same_digit (to_digit 16 (hex_digit d)) d) ≡ true
unfolding all_below hex_digit to_digit
hex_table = refl

hex_read : (d : ℕ) → d < 16 → to_digit 16 (hex_digit d) ≡ some d
hex_read d h = same_digit→eq _ d (all_below_sound 16 _ hex_table d h)

no_plus : (d : ℕ) → d < 16 → (hex_digit d == 43) ≡ false
unfolding hex_digit
no_plus d h = ground arith

hex_step :
    (acc d : ℕ) (cs : Text)
    → d < 16
    → acc * 16 + d ≤ 65535
    → parse_digits 16 65535 acc (hex_digit d ∷ cs) ≡ parse_digits 16 65535 (acc * 16 + d) cs
hex_step acc d cs h fits = digit_step 16 65535 acc (hex_digit d) d cs (hex_read d h) fits

hex4_digits :
    (a b c d : ℕ)
    → a < 16
    → b < 16
    → c < 16
    → d < 16
    → parse_digits 16 65535 0 (hex_digit a ∷ hex_digit b ∷ hex_digit c ∷ hex_digit d ∷ [])
      ≡ some (((a * 16 + b) * 16 + c) * 16 + d)
hex4_digits a b c d ha hb hc hd =
    hex_step 0 a (hex_digit b ∷ hex_digit c ∷ hex_digit d ∷ []) ha (omega arith)
    ∙ hex_step (0 * 16 + a) b (hex_digit c ∷ hex_digit d ∷ []) hb (omega arith)
    ∙ hex_step ((0 * 16 + a) * 16 + b) c (hex_digit d ∷ []) hc (omega arith)
    ∙ hex_step (((0 * 16 + a) * 16 + b) * 16 + c) d [] hd (omega arith)
    ∙ (unfold parse_digits in ap some (omega arith))

-- A `u16` is read back from its four hexadecimal digits.
pub parse_uint-hex4 : (v : ℕ) → v < 2 ^ 16 → parse_uint 16 65535 (hex4 v) ≡ some v
unfolding hex4 parse_uint
parse_uint-hex4 v h = rw (no_plus (v / 4096 % 16) (omega arith)) (
    hex4_digits (v / 4096 % 16) (v / 256 % 16) (v / 16 % 16) (v % 16) (omega arith) (omega arith)
      (omega arith) (omega arith)
    ∙ ap some (omega arith))

hex_digit-ne : (d sep : ℕ) → d < 16 → sep ≡ 58 ⊎ sep ≡ 45 → hex_digit d ≢ sep
unfolding hex_digit
hex_digit-ne d sep h s e = ground arith

pub hex4-Lacks : (v : ℕ) → Lacks 58 (hex4 v)
unfolding hex4
hex4-Lacks v = (
  hex_digit-ne _ 58 (omega arith) (inl refl),
  (
    hex_digit-ne _ 58 (omega arith) (inl refl),
    (hex_digit-ne _ 58 (omega arith) (inl refl), (hex_digit-ne _ 58 (omega arith) (inl refl), tt)),
  ),
)

pub text_eq_sound : (a b : Text) → text_eq a b ≡ true → a ≡ b
unfolding text_eq
text_eq_sound [] [] h = refl
text_eq_sound [] (b ∷ bs) h = cc
text_eq_sound (a ∷ as') [] h = cc
text_eq_sound (a ∷ as') (b ∷ bs) h = ground (arith, text_eq_sound as' bs)
