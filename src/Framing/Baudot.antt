-- ===== src/Framing/Baudot.antt =====
-- The five-bit code of teleprinters with its two shifts, crates/dsp/src/framing/baudot.rs.
pub mod RoundTrip
mod Tests
use omnimodem.Base.{
  ℕ, suc, ◌-◌, bit_and, Bool, true, false, ◌&&◌, List, [], ◌∷◌, ◌++◌, Option, none, some, leb, ◌==◌,
  if◌then◌else◌, get_or,
}
use omnimodem.Base.Text.{Text}

abbrev pub ltrs : ℕ
ltrs = 0x1F

abbrev pub figs : ℕ
figs = 0x1B

abbrev pub space : ℕ
space = 0x04

-- The characters by code; zero marks a shift or an unused slot.
abbrev pub letters_table : List ℕ
letters_table =
    0 ∷ b'E' ∷ 10 ∷ b'A' ∷ 32 ∷ b'S' ∷ b'I' ∷ b'U' ∷ 13 ∷ b'D' ∷ b'R' ∷ b'J' ∷ b'N' ∷ b'F' ∷ b'C'
    ∷ b'K' ∷ b'T' ∷ b'Z' ∷ b'L' ∷ b'W' ∷ b'H' ∷ b'Y' ∷ b'P' ∷ b'Q' ∷ b'O' ∷ b'B' ∷ b'G' ∷ 0 ∷ b'M'
    ∷ b'X' ∷ b'V' ∷ 0 ∷ []

abbrev pub figures_table : List ℕ
figures_table =
    0 ∷ 51 ∷ 10 ∷ 45 ∷ 32 ∷ 7 ∷ 56 ∷ 55 ∷ 13 ∷ 36 ∷ 52 ∷ 39 ∷ 44 ∷ 33 ∷ 58 ∷ 40 ∷ 53 ∷ 34 ∷ 41 ∷ 50
    ∷ 35 ∷ 54 ∷ 48 ∷ 49 ∷ 57 ∷ 63 ∷ 38 ∷ 0 ∷ 46 ∷ 47 ∷ 59 ∷ 0 ∷ []

pub data Shift : Type 0 where
  letters : Shift
  figures : Shift

-- `position`, from a position on.
unfoldable pub find_from : ℕ → List ℕ → ℕ → Option ℕ
find_from i [] c = none
find_from i (x ∷ xs) c = if x == c then some i else find_from (suc i) xs c

abbrev pub find : List ℕ → ℕ → Option ℕ
find table c = find_from 0 table c

abbrev pub to_upper : ℕ → ℕ
to_upper c = if leb b'a' c && leb c b'z' then c - 32 else c

-- A character that both tables have: its code, which may be the space that shifts back.
abbrev pub push_shared : Shift → ℕ → ℕ → List ℕ × Shift
push_shared letters letter figure = (letter ∷ [], letters)
push_shared figures letter figure = (figure ∷ [], if figure == space then letters else figures)

abbrev pub push_letter : Shift → ℕ → List ℕ × Shift
push_letter letters code = (code ∷ [], letters)
push_letter figures code = (ltrs ∷ code ∷ [], letters)

abbrev pub push_figure : Shift → ℕ → List ℕ × Shift
push_figure letters code = (figs ∷ code ∷ [], figures)
push_figure figures code = (code ∷ [], figures)

-- One round of the encoder's loop: the codes of a character, and the shift behind it.
unfoldable pub push_char : Shift → ℕ → List ℕ × Shift
push_char shift c = elim (find letters_table c) [
  | some letter ↦ elim (find figures_table c) [
    | some figure ↦ push_shared shift letter figure
    | none ↦ push_letter shift letter
  ]
  | none ↦ elim (find figures_table c) [
    | some figure ↦ push_figure shift figure
    | none ↦ ([], shift)
  ]
]

unfoldable pub encode_from : Shift → Text → List ℕ
encode_from shift [] = []
encode_from shift (c ∷ cs) =
    let (codes, next) = push_char shift (to_upper c) in codes ++ encode_from next cs

unfoldable pub encode : Text → List ℕ
encode text = encode_from letters text

abbrev pub table_of : Shift → List ℕ
table_of letters = letters_table
table_of figures = figures_table

-- `Decoder::feed`
unfoldable pub feed : Shift → ℕ → Option ℕ × Shift
feed shift code =
    if code == ltrs
    then (none, letters)
    else if code == figs
    then (none, figures)
    else let c = get_or (table_of shift) (bit_and code 0x1F) 0 in
      (if c == 0 then none else some c, if code == space then letters else shift)

abbrev pub emit : Option ℕ → Text → Text
emit none text = text
emit (some c) text = c ∷ text

-- `Decoder::decode`, with the shift it leaves behind.
unfoldable pub decode : Shift → List ℕ → Text × Shift
decode shift [] = ([], shift)
decode shift (code ∷ codes) =
    let (c, next) = feed shift code in let (text, last) = decode next codes in (emit c text, last)
