-- ===== src/Base/Text.antt =====
-- Texts as lists of code points, and what the program uses of `str`: cutting at a separator, and
-- writing and reading numbers.
pub mod Laws
pub mod Words
use Prim.Native.Nat.{ℕ, zero, suc, ◌+◌, ◌-◌, ◌*◌, ◌/◌, ◌%◌}
use Prim.Native.Char.{code}
use Prim.Native.String.{String}
use mathlib.Core.Bool.{Bool, true, false, ◌&&◌}
use mathlib.Core.Option.{Option, none, some}
use mathlib.Core.List.{List, [], ◌∷◌}
use omnimodem.Base.Tests.{ltb, leb, ◌==◌, if◌then◌else◌}

abbrev pub Text : Type 0
Text = List ℕ

-- A literal of the source.
abbrev pub codes : String → Text
codes String.[] = []
codes (String.◌∷◌ c s) = code c ∷ codes s

unfoldable pub text_eq : Text → Text → Bool
text_eq [] [] = true
text_eq [] (b ∷ bs) = false
text_eq (a ∷ as') [] = false
text_eq (a ∷ as') (b ∷ bs) = a == b && text_eq as' bs

abbrev pub cons_first : ℕ → Option (Text × Text) → Option (Text × Text)
cons_first c none = none
cons_first c (some (a, b)) = some (c ∷ a, b)

-- `str::split_once` at a character.
unfoldable pub split_once : ℕ → Text → Option (Text × Text)
split_once sep [] = none
split_once sep (c ∷ cs) = if c == sep then some ([], cs) else cons_first c (split_once sep cs)

-- `str::rsplit_once`: at the last occurrence.
unfoldable pub rsplit_once : ℕ → Text → Option (Text × Text)
rsplit_once sep [] = none
rsplit_once sep (c ∷ cs) = elim (rsplit_once sep cs) [
  | some (a, b) ↦ some (c ∷ a, b)
  | none ↦ if c == sep then some ([], cs) else none
]

-- `char::to_digit` in a radix of at most sixteen.
unfoldable pub to_digit : ℕ → ℕ → Option ℕ
to_digit radix c =
    let d =
      if leb b'0' c && leb c b'9'
      then c - b'0'
      else if leb b'a' c && leb c b'f'
      then c - b'a' + 10
      else if leb b'A' c && leb c b'F'
      then c - b'A' + 10
      else 16 in
    if ltb d radix then some d else none

-- The digits of `from_str_radix`, which refuses a value above the type's largest.
unfoldable pub parse_digits : ℕ → ℕ → ℕ → Text → Option ℕ
parse_digits radix limit acc [] = some acc
parse_digits radix limit acc (c ∷ cs) = elim (to_digit radix c) [
  | none ↦ none
  | some d ↦
      if ltb limit (acc * radix + d) then none else parse_digits radix limit (acc * radix + d) cs
]

-- `from_str_radix` of an unsigned type: one leading plus sign is allowed, and some digit is needed.
unfoldable pub parse_uint : ℕ → ℕ → Text → Option ℕ
parse_uint radix limit [] = none
parse_uint radix limit (c ∷ []) = parse_digits radix limit 0 (c ∷ [])
parse_uint radix limit (c ∷ d ∷ cs) =
    if c == b'+'
    then parse_digits radix limit 0 (d ∷ cs)
    else parse_digits radix limit 0 (c ∷ d ∷ cs)

-- `{v}`: decimal digits before `rest`, with rounds enough for `v`.
unfoldable pub decimal_before : ℕ → ℕ → Text → Text
decimal_before zero v rest = rest
decimal_before (suc n) v rest =
    let more = decimal_before n (v / 10) ((b'0' + v % 10) ∷ rest) in
    if ltb v 10 then (b'0' + v) ∷ rest else more

-- A `u8` or `u16` has at most five digits.
unfoldable pub decimal : ℕ → Text
decimal v = decimal_before 5 v []

unfoldable pub hex_digit : ℕ → ℕ
hex_digit d = if ltb d 10 then b'0' + d else b'a' + (d - 10)

-- `{v:04x}` of a `u16`.
unfoldable pub hex4 : ℕ → Text
hex4 v =
    hex_digit (v / 4096 % 16)
    ∷ hex_digit (v / 256 % 16)
    ∷ hex_digit (v / 16 % 16)
    ∷ hex_digit (v % 16)
    ∷ []
