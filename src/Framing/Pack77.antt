-- ===== src/Framing/Pack77.antt =====
-- Standard messages in 77 bits: `pack77_standard` and `unpack77_standard` of
-- crates/dsp/src/framing/pack77.rs.
pub mod Bits
pub mod Tail
pub mod RoundTrip
mod Tests
use omnimodem.Base.{
  ℕ, zero, suc, ◌+◌, ◌-◌, ◌*◌, ◌/◌, ◌%◌, ◌^◌, bit_or, Bool, true, false, not, ◌&&◌, ◌||◌, List, [],
  ◌∷◌, ◌++◌, Option, none, some, ltb, leb, ◌==◌, if◌then◌else◌, length, take, drop, get_or,
}
use omnimodem.Base.Int.{ℤ, pos, negsuc, as_word, offset, minus}
use omnimodem.Base.Text.{Text, codes, text_eq, parse_digits, decimal}
use omnimodem.Base.Text.Words.{split_whitespace}
use omnimodem.Framing.Pack28.{is_digit, pack28, unpack28, ◌>>=◌}

abbrev pub maxgrid4 : ℕ
maxgrid4 = 32400

abbrev is_field : ℕ → Bool
is_field c = leb b'A' c && leb c b'R'

unfoldable pub is_grid4 : Text → Bool
is_grid4 (a ∷ b ∷ c ∷ d ∷ []) = is_field a && is_field b && is_digit c && is_digit d
is_grid4 _ = false

abbrev negated : Option ℕ → Option ℤ
negated none = none
negated (some n) = some (if n == 0 then pos 0 else negsuc (n - 1))

abbrev as_pos : Option ℕ → Option ℤ
as_pos none = none
as_pos (some n) = some (pos n)

-- `str::parse::<i32>`
unfoldable pub parse_i32 : Text → Option ℤ
parse_i32 [] = none
parse_i32 (c ∷ []) = as_pos (parse_digits 10 2147483647 0 (c ∷ []))
parse_i32 (c ∷ d ∷ cs) =
    if c == b'-'
    then negated (parse_digits 10 2147483648 0 (d ∷ cs))
    else if c == b'+'
    then as_pos (parse_digits 10 2147483647 0 (d ∷ cs))
    else as_pos (parse_digits 10 2147483647 0 (c ∷ d ∷ cs))

-- -50 to -31 are moved up by 101.
abbrev pub wrap_report : ℤ → ℤ
wrap_report (pos n) = pos n
wrap_report (negsuc n) = if leb 30 n && leb n 49 then pos (100 - n) else negsuc n

unfoldable pub rpt : Text → ℕ → Option (ℕ × ℕ)
rpt s ir = elim (parse_i32 s) [
  | none ↦ none
  | some v ↦ some (ir, as_word 32 (offset (wrap_report v) (maxgrid4 + 35)))
]

abbrev is_sign : ℕ → Bool
is_sign c = c == b'+' || c == b'-'

unfoldable pub signed_report : Text → Option (ℕ × ℕ)
signed_report [] = none
signed_report (c ∷ cs) =
    if is_sign c
    then rpt (c ∷ cs) 0
    else elim cs [ [] ↦ none | d ∷ ds ↦ if c == b'R' && is_sign d then rpt (d ∷ ds) 1 else none ]

abbrev pub grid_number : Text → ℕ
grid_number text =
    (get_or text 0 0 - b'A') * 18 * 10 * 10
    + (get_or text 1 0 - b'A') * 10 * 10
    + (get_or text 2 0 - b'0') * 10
    + (get_or text 3 0 - b'0')

unfoldable pub encode_grid_report : Text → Bool → Option (ℕ × ℕ)
encode_grid_report tok has_r =
    if is_grid4 tok
    then some (if has_r then 1 else 0, grid_number tok)
    else if text_eq tok (codes "RRR")
    then some (0, maxgrid4 + 2)
    else if text_eq tok (codes "RR73")
    then some (0, maxgrid4 + 3)
    else if text_eq tok (codes "73")
    then some (0, maxgrid4 + 4)
    else signed_report tok

-- `val >> i`
unfoldable pub shr : ℕ → ℕ → ℕ
shr zero v = v
shr (suc i) v = shr i (v / 2)

unfoldable pub push_bits : ℕ → ℕ → List ℕ
push_bits v zero = []
push_bits v (suc i) = shr i v % 2 ∷ push_bits v i

-- The fields of a message, in their order.
unfoldable pub frame : ℕ → ℕ → ℕ → ℕ → List ℕ
frame n28a n28b ir igrid4 =
    push_bits n28a 28
    ++ (push_bits 0 1
        ++ (push_bits n28b 28
            ++ (push_bits 0 1 ++ (push_bits ir 1 ++ (push_bits igrid4 15 ++ push_bits 1 3)))))

unfoldable pub pack_words : List Text → Option (List ℕ)
pack_words (a ∷ b ∷ []) = do
  n28a ← pack28 a
  n28b ← pack28 b
  some (frame n28a n28b 0 (maxgrid4 + 1))
pack_words (a ∷ b ∷ t ∷ []) = do
  n28a ← pack28 a
  n28b ← pack28 b
  (ir, igrid4) ← encode_grid_report t false
  some (frame n28a n28b ir igrid4)
pack_words (a ∷ b ∷ r ∷ t ∷ []) = do
  n28a ← pack28 a
  n28b ← pack28 b
  (ir, igrid4) ← if text_eq r (codes "R") then encode_grid_report t true else none
  some (frame n28a n28b ir igrid4)
pack_words _ = none

unfoldable pub pack77_standard : Text → Option (List ℕ)
pack77_standard msg = pack_words (split_whitespace msg)

unfoldable pub bits_from : ℕ → List ℕ → ℕ
bits_from acc [] = acc
bits_from acc (b ∷ bits) = bits_from (bit_or (acc * 2 % 2 ^ 32) b) bits

unfoldable pub bits_to_u32 : List ℕ → ℕ
bits_to_u32 bits = bits_from 0 bits

-- `{n:02}`
abbrev pub decimal2 : ℕ → Text
decimal2 n = if ltb n 10 then b'0' ∷ decimal n else decimal n

-- 51 to 70 are moved down by 101.
abbrev pub unwrap_report : ℤ → ℤ
unwrap_report (pos n) = if leb 51 n && leb n 70 then minus n 101 else pos n
unwrap_report (negsuc n) = negsuc n

abbrev pub show_report : ℤ → Text
show_report (pos n) = b'+' ∷ decimal2 n
show_report (negsuc n) = b'-' ∷ decimal2 (suc n)

unfoldable pub show_grid : ℕ → Text
show_grid i =
    (b'A' + i / 1800) ∷ (b'A' + i % 1800 / 100) ∷ (b'0' + i % 100 / 10) ∷ (b'0' + i % 10) ∷ []

-- What follows the two calls.
unfoldable pub unpack_tail : ℕ → ℕ → Text
unpack_tail ir igrid4 =
    let irpt = igrid4 - maxgrid4 in
    if ltb igrid4 maxgrid4
    then b' ' ∷ ((if ir == 1 then codes "R " else []) ++ show_grid igrid4)
    else if irpt == 1
    then []
    else if irpt == 2
    then codes " RRR"
    else if irpt == 3
    then codes " RR73"
    else if irpt == 4
    then codes " 73"
    else b' ' ∷ ((if ir == 1 then codes "R" else []) ++ show_report (unwrap_report (minus irpt 35)))

unfoldable pub unpack_fields : ℕ → ℕ → ℕ → ℕ → Option Text
unpack_fields n28a n28b ir igrid4 = do
  call1 ← unpack28 n28a
  call2 ← unpack28 n28b
  some (call1 ++ (b' ' ∷ (call2 ++ unpack_tail ir igrid4)))

unfoldable pub unpack77_standard : List ℕ → Option Text
unpack77_standard bits =
    if bits_to_u32 (take 3 (drop 74 bits)) == 1
    then unpack_fields (bits_to_u32 (take 28 bits)) (bits_to_u32 (take 28 (drop 29 bits)))
        (get_or bits 58 0) (bits_to_u32 (take 15 (drop 59 bits)))
    else none
