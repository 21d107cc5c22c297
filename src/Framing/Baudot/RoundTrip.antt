-- ===== src/Framing/Baudot/RoundTrip.antt =====
-- A text, through its codes and back.
use omnimodem.Base.{
  both_true, ℕ, suc, ◌<◌, ◌≤◌, ◌≡◌, refl, ap, ◌∙◌, Bool, true, false, not, ◌&&◌, List, [], ◌∷◌,
  ◌++◌, Option, none, some, ltb, ◌==◌, if◌then◌else◌, arith, Bool-cases, inl, inr,
}
use omnimodem.Base.Table.{all_below, all_below_sound}
use omnimodem.Base.Text.{Text, text_eq}
use omnimodem.Base.Text.Laws.{text_eq_sound}
use omnimodem.Framing.Baudot.{
  letters_table, figures_table, Shift, letters, figures, find_from, find, to_upper, push_char,
  encode_from, encode, feed, emit, decode,
}

-- Whether the code has a character: a table holds it, and it is not the mark of an empty slot.
abbrev is_some : Option ℕ → Bool
is_some none = false
is_some (some x) = true

unfoldable pub has_code : ℕ → Bool
has_code c =
    not (c == 0)
    && (if is_some (find letters_table c) then true else is_some (find figures_table c))

-- A text in capitals, without the characters that the code does not have.
unfoldable pub transmitted : Text → Text
transmitted [] = []
transmitted (c ∷ cs) =
    let rest = transmitted cs in if has_code (to_upper c) then to_upper c ∷ rest else rest

abbrev shown : ℕ → Text
shown c = if has_code c then c ∷ [] else []

same_shift : Shift → Shift → Bool
same_shift letters letters = true
same_shift figures figures = true
same_shift _ _ = false

same_shift_sound : (s t : Shift) → same_shift s t ≡ true → s ≡ t
unfolding same_shift
same_shift_sound letters letters h = refl
same_shift_sound figures figures h = refl
same_shift_sound letters figures h = cc
same_shift_sound figures letters h = cc

-- What the decoder makes of one character's codes.
char_ok : Shift → ℕ → Bool
char_ok shift c =
    text_eq (decode shift (push_char shift c).0).0 (shown c)
    && same_shift (decode shift (push_char shift c).0).1 (push_char shift c).1

chars_checked : all_below 128 (char_ok letters) && all_below 128 (char_ok figures) ≡ true
unfolding all_below char_ok text_eq decode feed push_char find_from has_code same_shift
chars_checked = refl

small : List ℕ → Bool
small [] = true
small (x ∷ xs) = ltb x 128 && small xs

find_above :
    (i : ℕ) (table : List ℕ) (c : ℕ) → small table ≡ true → 128 ≤ c → find_from i table c ≡ none
unfolding find_from small
find_above i [] c h large = refl
find_above i (x ∷ xs) c h large = ground (arith, find_above (suc i) xs c)

letters_small : small letters_table ≡ true
unfolding small
letters_small = refl

figures_small : small figures_table ≡ true
unfolding small
figures_small = refl

above_pushed : (shift : Shift) (c : ℕ) → 128 ≤ c → push_char shift c ≡ ([], shift)
unfolding push_char
above_pushed shift c large =
    rw
      (
        find_above 0 letters_table c letters_small large,
        push_char,
        find_above 0 figures_table c figures_small large,
      )
      refl

above_unknown : (c : ℕ) → 128 ≤ c → has_code c ≡ false
unfolding has_code
above_unknown c large =
    let not_zero : (c == 0) ≡ false = ground arith in
    rw
      (
        has_code,
        not_zero,
        find_above 0 letters_table c letters_small large,
        find_above 0 figures_table c figures_small large,
      )
      refl

above_ok : (shift : Shift) (c : ℕ) → 128 ≤ c → char_ok shift c ≡ true
unfolding char_ok text_eq decode
above_ok shift c large =
    rw (char_ok, above_pushed shift c large, above_unknown c large) (same shift)
  where
    same : (shift : Shift) → same_shift shift shift ≡ true
    same letters = unfold same_shift in refl
    same figures = unfold same_shift in refl

char_checked : (shift : Shift) (c : ℕ) → char_ok shift c ≡ true
char_checked shift c = elim (Bool-cases (ltb c 128)) [
  | inl below ↦ under shift (ground arith)
  | inr above ↦ above_ok shift c (ground arith)
]
  where
    under : (shift : Shift) → c < 128 → char_ok shift c ≡ true
    under letters h = all_below_sound 128 (char_ok letters) (ground (arith, chars_checked)) c h
    under figures h = all_below_sound 128 (char_ok figures) (ground (arith, chars_checked)) c h

-- The codes of one character give it back, and leave the decoder in the encoder's shift.
char_back :
    (shift : Shift) (c : ℕ) → decode shift (push_char shift c).0 ≡ (shown c, (push_char shift c).1)
unfolding char_ok
char_back shift c =
    let (text, next) =
      both_true (text_eq (decode shift (push_char shift c).0).0 (shown c)) (char_checked shift c) in
    (λ i. (
      text_eq_sound (decode shift (push_char shift c).0).0 (shown c) text i,
      same_shift_sound (decode shift (push_char shift c).0).1 (push_char shift c).1 next i,
    ))

decode-append :
    (shift : Shift) (xs ys : List ℕ)
    → decode shift (xs ++ ys) ≡ (
      (decode shift xs).0 ++ (decode (decode shift xs).1 ys).0,
      (decode (decode shift xs).1 ys).1,
    )
unfolding decode
decode-append shift [] ys = refl
decode-append shift (x ∷ xs) ys =
    let (c, next) = feed shift x in
    rw (decode-append next xs ys) (
      ap (λ t. (t, (decode (decode next xs).1 ys).1))
        (emit_append c (decode next xs).0 (decode (decode next xs).1 ys).0))
  where
    emit_append : (c : Option ℕ) (a b : Text) → emit c (a ++ b) ≡ emit c a ++ b
    emit_append none a b = refl
    emit_append (some c) a b = refl

decode-encode_from :
    (shift : Shift) (text : Text) → (decode shift (encode_from shift text)).0 ≡ transmitted text
unfolding encode_from transmitted
decode-encode_from shift [] = unfold decode in refl
decode-encode_from shift (c ∷ cs) =
    let next : Shift = (push_char shift (to_upper c)).1 in
    ap (λ r. r.0) (decode-append shift (push_char shift (to_upper c)).0 (encode_from next cs))
    ∙ ap (λ r. r.0 ++ (decode r.1 (encode_from next cs)).0) (char_back shift (to_upper c))
    ∙ ap (λ t. shown (to_upper c) ++ t) (decode-encode_from next cs)
    ∙ joined (has_code (to_upper c))
  where
    joined :
        (b : Bool)
        → (if b then to_upper c ∷ [] else []) ++ transmitted cs
          ≡ (if b then to_upper c ∷ transmitted cs else transmitted cs)
    joined true = refl
    joined false = refl

-- What is received of any text is the text in capitals, without the characters that the code does
-- not have; the shifts that the encoder inserts, and the shift back after a space, leave no trace.
pub decode-encode_letters : (text : Text) → (decode letters (encode text)).0 ≡ transmitted text
unfolding encode
decode-encode_letters text = decode-encode_from letters text
