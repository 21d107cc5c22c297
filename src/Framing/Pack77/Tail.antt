-- ===== src/Framing/Pack77/Tail.antt =====
-- What follows the two calls of a message: written, encoded, decoded.
use omnimodem.Base.{
  both_true, ℕ, ◌^◌, ◌<◌, ◌≡◌, refl, ap, Bool, true, false, ◌&&◌, ltb, List, [], ◌∷◌, ◌++◌, Option,
  none, some, arith, if◌then◌else◌,
}
use omnimodem.Base.Int.{minus}
use omnimodem.Base.Table.{all_below, all_below_sound}
use omnimodem.Base.Text.{Text, codes, text_eq, decimal, decimal_before, parse_digits, to_digit}
use omnimodem.Base.Text.Laws.{text_eq_sound}
use omnimodem.Framing.Pack28.{is_digit, pack28}
use omnimodem.Framing.Pack77.{
  is_grid4, parse_i32, rpt, signed_report, encode_grid_report, show_report, show_grid, unpack_tail,
  frame, pack_words,
}

-- The ends of a standard message: nothing, a locator with or without an `R` before it, the three
-- closing words, of which `RR73` is a locator as well, and a report of `v` - 50 dB with or without an `R`.
pub data Tail : Type 0 where
  bare : Tail
  grid : Bool → ℕ → Tail
  rrr : Tail
  rr73 : Tail
  seventy_three : Tail
  report : Bool → ℕ → Tail

abbrev pub IsTail : Tail → Type 0
IsTail (grid has_r i) = i < 32400
IsTail (report has_r v) = v < 101
IsTail _ = Unit {0}

abbrev pub report_text : Bool → ℕ → Text
report_text has_r v = (if has_r then codes "R" else []) ++ show_report (minus v 50)

-- The words of an end, and what they are encoded to.
abbrev pub tail_words : Tail → List Text
tail_words bare = []
tail_words (grid true i) = codes "R" ∷ show_grid i ∷ []
tail_words (grid false i) = show_grid i ∷ []
tail_words rrr = codes "RRR" ∷ []
tail_words rr73 = codes "RR73" ∷ []
tail_words seventy_three = codes "73" ∷ []
tail_words (report has_r v) = report_text has_r v ∷ []

-- A report that is encoded, and what the decoder makes of it.
report_decoded : Bool → ℕ → Option (ℕ × ℕ) → Bool
report_decoded has_r v none = false
report_decoded has_r v (some (ir, igrid4)) =
    ltb ir 2 && (ltb igrid4 32768 && text_eq (unpack_tail ir igrid4) (b' ' ∷ report_text has_r v))

report_ok : Bool → ℕ → Bool
report_ok has_r v = report_decoded has_r v (encode_grid_report (report_text has_r v) false)

reports_checked : all_below 101 (report_ok true) && all_below 101 (report_ok false) ≡ true
unfolding all_below report_ok report_decoded encode_grid_report is_grid4 is_digit text_eq
    signed_report rpt parse_i32 parse_digits to_digit unpack_tail decimal decimal_before
reports_checked = refl

decoded_lem :
    (has_r : Bool) (v : ℕ) (o : Option (ℕ × ℕ))
    → report_decoded has_r v o ≡ true
    → (ir : ℕ) × (igrid4 : ℕ) × (o ≡ some (ir, igrid4))
      × (ir < 2)
      × (igrid4 < 2 ^ 15)
      × (unpack_tail ir igrid4 ≡ b' ' ∷ report_text has_r v)
unfolding report_decoded
decoded_lem has_r v none h = absurd (impossible h)
  where
    impossible : false ≡ true → ⊥
    impossible e = cc
decoded_lem has_r v (some (ir, igrid4)) h =
    let (small, h1) = both_true (ltb ir 2) h in
    let (fits, same) = both_true (ltb igrid4 32768) h1 in
    (
      ir,
      igrid4,
      refl,
      ground arith,
      ground arith,
      text_eq_sound (unpack_tail ir igrid4) (b' ' ∷ report_text has_r v) same,
    )

report_checked : (has_r : Bool) (v : ℕ) → v < 101 → report_ok has_r v ≡ true
report_checked true v h = all_below_sound 101 (report_ok true) (ground (arith, reports_checked)) v h
report_checked false v h =
    all_below_sound 101 (report_ok false) (ground (arith, reports_checked)) v h

pub report_encoded :
    (has_r : Bool) (v : ℕ)
    → v < 101
    → (ir : ℕ) × (igrid4 : ℕ) × (encode_grid_report (report_text has_r v) false ≡ some (ir, igrid4))
      × (ir < 2)
      × (igrid4 < 2 ^ 15)
      × (unpack_tail ir igrid4 ≡ b' ' ∷ report_text has_r v)
unfolding report_ok
report_encoded has_r v h =
    decoded_lem has_r v (encode_grid_report (report_text has_r v) false) (report_checked has_r v h)

grid_shown : (i : ℕ) → i < 32400 → is_grid4 (show_grid i) ≡ true
unfolding is_grid4 show_grid is_digit
grid_shown i h = ground arith

pub grid_encoded :
    (has_r : Bool) (i : ℕ)
    → i < 32400
    → encode_grid_report (show_grid i) has_r ≡ some (if has_r then 1 else 0, i)
unfolding encode_grid_report show_grid
grid_encoded has_r i h =
    rw (grid_shown i h) (ap (λ n. some (if has_r then 1 else 0, n)) (omega arith))

-- The text of an end.
abbrev pub tail_text : Tail → Text
tail_text bare = []
tail_text (grid true i) = b' ' ∷ (codes "R " ++ show_grid i)
tail_text (grid false i) = b' ' ∷ show_grid i
tail_text rrr = codes " RRR"
tail_text rr73 = codes " RR73"
tail_text seventy_three = codes " 73"
tail_text (report has_r v) = b' ' ∷ report_text has_r v

module _ (a b : Text) (n28a n28b : ℕ) (ea : pack28 a ≡ some n28a) (eb : pack28 b ≡ some n28b) where
  pub tail_packed :
      (t : Tail)
      → IsTail t
      → (ir : ℕ) × (igrid4 : ℕ) × (pack_words (a ∷ b ∷ tail_words t)
          ≡ some (frame n28a n28b ir igrid4))
        × (ir < 2)
        × (igrid4 < 2 ^ 15)
        × (unpack_tail ir igrid4 ≡ tail_text t)
  unfolding pack_words unpack_tail
  tail_packed bare h = (0, 32401, rw (ea, eb) refl, omega arith, omega arith, refl)
  tail_packed (grid true i) h = (
    1,
    i,
    rw (ea, eb, grid_encoded true i h) (unfold text_eq in refl),
    omega arith,
    omega arith,
    ground arith,
  )
  tail_packed (grid false i) h =
      (0, i, rw (ea, eb, grid_encoded false i h) refl, omega arith, omega arith, ground arith)
  tail_packed rrr h = (
    0,
    32402,
    rw (ea, eb) (unfold encode_grid_report is_grid4 is_digit text_eq in refl),
    omega arith,
    omega arith,
    refl,
  )
  tail_packed rr73 h = (
    0,
    32373,
    rw (ea, eb) (unfold encode_grid_report is_grid4 is_digit text_eq in refl),
    omega arith,
    omega arith,
    unfold show_grid in refl,
  )
  tail_packed seventy_three h = (
    0,
    32404,
    rw (ea, eb) (unfold encode_grid_report is_grid4 is_digit text_eq in refl),
    omega arith,
    omega arith,
    refl,
  )
  tail_packed (report has_r v) h =
      let (ir, igrid4, encoded, small, fits, shown) = report_encoded has_r v h in
      (ir, igrid4, rw (ea, eb, encoded) refl, small, fits, shown)
