-- ===== src/Base/Text/Words.antt =====
-- White space and splitting in `str`: `trim`, `split` at a character and `split_whitespace`.
use Prim.Native.Nat.{ℕ}
use mathlib.Core.Path.{◌∙◌, ap, ◌≡◌, refl}
use mathlib.Core.Bool.{not, true, Bool, false, ◌&&◌, ◌||◌}
use mathlib.Core.List.{List, [], ◌∷◌, ◌++◌}
use native.Mathlib.Omega.{arith}
use omnimodem.Base.Tests.{leb, ◌==◌, if◌then◌else◌}
use omnimodem.Base.Text.{Text}
use omnimodem.Base.Text.Laws.{Lacks}
use omnimodem.Base.Lists.{All}

-- `char::is_whitespace`
abbrev pub is_whitespace : ℕ → Bool
is_whitespace c =
    c == 0x20
    || (leb 0x09 c && leb c 0x0D)
    || c == 0x85
    || c == 0xA0
    || c == 0x1680
    || (leb 0x2000 c && leb c 0x200A)
    || c == 0x2028
    || c == 0x2029
    || c == 0x202F
    || c == 0x205F
    || c == 0x3000

unfoldable pub trim_start : Text → Text
trim_start [] = []
trim_start (c ∷ cs) = if is_whitespace c then trim_start cs else c ∷ cs

unfoldable pub trim_end : Text → Text
trim_end [] = []
trim_end (c ∷ cs) = elim (trim_end cs) [
  | [] ↦ if is_whitespace c then [] else c ∷ []
  | d ∷ ds ↦ c ∷ d ∷ ds
]

unfoldable pub trim : Text → Text
trim text = trim_end (trim_start text)

abbrev pub cons_head : ℕ → List Text → List Text
cons_head c [] = (c ∷ []) ∷ []
cons_head c (w ∷ ws) = (c ∷ w) ∷ ws

-- `str::split` at a character: one piece more than there are separators.
unfoldable pub split : ℕ → Text → List Text
split sep [] = [] ∷ []
split sep (c ∷ cs) = let rest = split sep cs in if c == sep then [] ∷ rest else cons_head c rest

abbrev pub IsInk : ℕ → Type 0
IsInk c = is_whitespace c ≡ false

trim_end-ink : (text : Text) → All IsInk text → trim_end text ≡ text
unfolding trim_end
trim_end-ink [] h = refl
trim_end-ink (c ∷ []) h = rw h.0 refl
trim_end-ink (c ∷ d ∷ ds) h = rw (trim_end-ink (d ∷ ds) h.1) refl

pub trim-ink : (text : Text) → All IsInk text → trim text ≡ text
unfolding trim trim_start
trim-ink [] h = trim_end-ink [] h
trim-ink (c ∷ cs) h = rw h.0 (trim_end-ink (c ∷ cs) h)

pub split-Lacks : (sep : ℕ) (a : Text) → Lacks sep a → split sep a ≡ a ∷ []
unfolding split
split-Lacks sep [] h = refl
split-Lacks sep (c ∷ cs) h = ground (arith, split-Lacks sep cs h.1)

pub split-append :
    (sep : ℕ) (a b : Text) → Lacks sep a → split sep (a ++ (sep ∷ b)) ≡ a ∷ split sep b
unfolding split
split-append sep [] b h = ground arith
split-append sep (c ∷ cs) b h = ground (arith, split-append sep cs b h.1)

-- `str::split_whitespace`
abbrev starts_word : Text → Bool
starts_word [] = false
starts_word (c ∷ cs) = not (is_whitespace c)

unfoldable pub split_whitespace : Text → List Text
split_whitespace [] = []
split_whitespace (c ∷ cs) =
    let rest = split_whitespace cs in
    if is_whitespace c then rest else if starts_word cs then cons_head c rest else (c ∷ []) ∷ rest

split_step :
    (c : ℕ) (cs : Text)
    → IsInk c
    → starts_word cs ≡ true
    → split_whitespace (c ∷ cs) ≡ cons_head c (split_whitespace cs)
unfolding split_whitespace
split_step c cs h more = rw (h, more) refl

pub split_whitespace-one :
    (c : ℕ) (w : Text) → All IsInk (c ∷ w) → split_whitespace (c ∷ w) ≡ (c ∷ w) ∷ []
unfolding split_whitespace
split_whitespace-one c [] h = rw h.0 refl
split_whitespace-one c (d ∷ w) h =
    split_step c (d ∷ w) h.0 (rw h.1.0 refl) ∙ ap (cons_head c) (split_whitespace-one d w h.1)

pub split_whitespace-append :
    (c : ℕ) (w rest : Text)
    → All IsInk (c ∷ w)
    → split_whitespace ((c ∷ w) ++ (b' ' ∷ rest)) ≡ (c ∷ w) ∷ split_whitespace rest
unfolding split_whitespace
split_whitespace-append c [] rest h = rw h.0 refl
split_whitespace-append c (d ∷ w) rest h =
    split_step c (d ∷ (w ++ (b' ' ∷ rest))) h.0 (rw h.1.0 refl)
    ∙ ap (cons_head c) (split_whitespace-append d w rest h.1)
