-- ===== src/Framing/Pack28.antt =====
-- Callsigns in 28 bits: `pack28` and `unpack28` of crates/dsp/src/framing/pack77.rs.
pub mod Shape
pub mod RoundTrip
mod Tests
use omnimodem.Base.{
  ℕ, zero, suc, ◌+◌, ◌-◌, ◌*◌, ◌/◌, ◌%◌, ◌^◌, Bool, true, false, not, ◌&&◌, ◌||◌, List, [], ◌∷◌,
  ◌++◌, Option, none, some, ltb, leb, ◌==◌, if◌then◌else◌, length, take, drop, get_or, map,
}
use omnimodem.Base.Text.{Text, codes, text_eq}
use omnimodem.Base.Text.Words.{trim}

abbrev pub a1_table : Text
a1_table = codes " 0123456789ABCDEFGHIJKLMNOPQRSTUVWXYZ"

abbrev pub a2_table : Text
a2_table = codes "0123456789ABCDEFGHIJKLMNOPQRSTUVWXYZ"

abbrev pub a3_table : Text
a3_table = codes "0123456789"

abbrev pub a4_table : Text
a4_table = codes " ABCDEFGHIJKLMNOPQRSTUVWXYZ"

abbrev pub ntokens : ℕ
ntokens = 2063592

abbrev pub max22 : ℕ
max22 = 4194304

-- `idx`, with the position reached.
unfoldable pub idx_from : ℕ → Text → ℕ → Option ℕ
idx_from i [] c = none
idx_from i (t ∷ tab) c = if t == c then some i else idx_from (suc i) tab c

unfoldable pub idx : Text → ℕ → Option ℕ
idx tab c = idx_from 0 tab c

unfoldable pub is_digit : ℕ → Bool
is_digit c = leb b'0' c && leb c b'9'

unfoldable pub is_upper : ℕ → Bool
is_upper c = leb b'A' c && leb c b'Z'

unfoldable pub is_alphanumeric : ℕ → Bool
is_alphanumeric c = is_digit c || is_upper c || (leb b'a' c && leb c b'z')

unfoldable pub all_alphanumeric : Text → Bool
all_alphanumeric [] = true
all_alphanumeric (c ∷ cs) = is_alphanumeric c && all_alphanumeric cs

-- The position, counted from one, of the last digit of a text that starts at index `i`; zero if
-- it has none.
unfoldable pub area_from : ℕ → Text → ℕ
area_from i [] = 0
area_from i (c ∷ cs) =
    let later = area_from (suc i) cs in
    if later == 0 then if is_digit c then suc i else 0 else later

-- The first character is not looked at.
unfoldable pub area : Text → ℕ
area [] = 0
area (c ∷ cs) = area_from 1 cs

unfoldable pub count : (ℕ → Bool) → Text → ℕ
count p [] = 0
count p (c ∷ cs) = if p c then suc (count p cs) else count p cs

-- Letters before the area digit, which is second or third, and at most three after it.
unfoldable pub is_standard : Text → Bool
is_standard c =
    let iarea = area c in
    (leb 2 iarea && leb iarea 3)
    && not (count is_upper (take (iarea - 1) c) == 0)
    && ltb (count is_digit (take (iarea - 1) c)) (iarea - 1)
    && leb (count is_upper (drop iarea c)) 3

-- The field of six characters: what does not fit is cut off.
unfoldable pub fill : ℕ → Text → Text
fill zero text = []
fill (suc n) [] = b' ' ∷ fill n []
fill (suc n) (c ∷ cs) = c ∷ fill n cs

unfoldable pub field_of : Text → Text
field_of c = fill 6 (if area c == 2 then b' ' ∷ c else c)

abbrev pub combine : ℕ → ℕ → ℕ → ℕ → ℕ → ℕ → ℕ
combine i1 i2 i3 i4 i5 i6 = ((((i1 * 36 + i2) * 10 + i3) * 27 + i4) * 27 + i5) * 27 + i6

infixl 5 ◌>>=◌
abbrev pub ◌>>=◌ : {A B : Type 0} → Option A → (A → Option B) → Option B
none >>= f = none
some a >>= f = f a

unfoldable pub pack_field : Text → Option ℕ
pack_field field = do
  i1 ← idx a1_table (get_or field 0 0)
  i2 ← idx a2_table (get_or field 1 0)
  i3 ← idx a3_table (get_or field 2 0)
  i4 ← idx a4_table (get_or field 3 0)
  i5 ← idx a4_table (get_or field 4 0)
  i6 ← idx a4_table (get_or field 5 0)
  some ((combine i1 i2 i3 i4 i5 i6 + ntokens + max22) % 2 ^ 28)

-- A text with `/` or `<` is not all alphanumeric, so the three tests are one.
unfoldable pub pack28 : Text → Option ℕ
pack28 call =
    if text_eq call (codes "DE")
    then some 0
    else if text_eq call (codes "QRZ")
    then some 1
    else if text_eq call (codes "CQ")
    then some 2
    else if not (all_alphanumeric call)
    then none
    else if not (is_standard call)
    then none
    else pack_field (field_of call)

-- `{n:03}` below a thousand.
abbrev pub decimal3 : ℕ → Text
decimal3 n = (b'0' + n / 100) ∷ (b'0' + n / 10 % 10) ∷ (b'0' + n % 10) ∷ []

unfoldable pub letters4 : ℕ → Text
letters4 m =
    get_or a4_table (m / 19683 % 27) 0
    ∷ get_or a4_table (m / 729 % 27) 0
    ∷ get_or a4_table (m / 27 % 27) 0
    ∷ get_or a4_table (m % 27) 0
    ∷ []

unfoldable pub unpack_token : ℕ → Text
unpack_token n =
    if n == 0
    then codes "DE"
    else if n == 1
    then codes "QRZ"
    else if n == 2
    then codes "CQ"
    else if ltb n 1003
    then codes "CQ " ++ decimal3 (n - 3)
    else codes "CQ " ++ trim (letters4 (n - 3 - 1000))

unfoldable pub unpack_field : ℕ → Text
unpack_field n =
    get_or a1_table (n / 27 / 27 / 27 / 10 / 36 % 37) 0
    ∷ get_or a2_table (n / 27 / 27 / 27 / 10 % 36) 0
    ∷ get_or a3_table (n / 27 / 27 / 27 % 10) 0
    ∷ get_or a4_table (n / 27 / 27 % 27) 0
    ∷ get_or a4_table (n / 27 % 27) 0
    ∷ get_or a4_table (n % 27) 0
    ∷ []

unfoldable pub unpack28 : ℕ → Option Text
unpack28 n =
    if ltb n ntokens
    then some (unpack_token n)
    else if ltb n (ntokens + max22)
    then none
    else some (trim (unpack_field (n - ntokens - max22)))
