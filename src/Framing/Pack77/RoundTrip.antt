-- ===== src/Framing/Pack77/RoundTrip.antt =====
-- A standard message, through its 77 bits and back.
use omnimodem.Base.{
  else_true, none_ne_some, ℕ, ◌<◌, ◌≡◌, ◌≢◌, append-nil, refl, ap, ◌∙◌, Bool, true, false, ◌&&◌,
  List, [], ◌∷◌, ◌++◌, some, arith, if◌then◌else◌, All,
}
use omnimodem.Base.Int.{ℤ, pos, negsuc, minus}
use omnimodem.Base.Table.{all_below, all_below_sound}
use omnimodem.Base.Text.{Text, codes, text_eq, decimal, decimal_before}
use omnimodem.Base.Text.Words.{
  is_whitespace, IsInk, split_whitespace, split_whitespace-one, split_whitespace-append,
}
use omnimodem.Framing.Pack28.{
  is_digit, is_upper, pack28, all_alphanumeric, is_standard, area, count,
}
use omnimodem.Framing.Pack28.Shape.{IsCallChar, calls-IsInk}
use omnimodem.Framing.Pack28.RoundTrip.{unpack28-pack28}
use omnimodem.Framing.Pack77.{
  show_grid, show_report, pack77_standard, unpack77_standard, unpack_fields, frame, pack_words,
}
use omnimodem.Framing.Pack77.Bits.{unpack77_standard-frame}
use omnimodem.Framing.Pack77.Tail.{
  Tail, bare, grid, rrr, rr73, seventy_three, report, IsTail, report_text, tail_words, tail_text,
  tail_packed,
}

ink_only : Text → Bool
ink_only [] = true
ink_only (c ∷ cs) = if is_whitespace c then false else ink_only cs

ink_only-IsInk : (cs : Text) → ink_only cs ≡ true → All IsInk cs
unfolding ink_only
ink_only-IsInk [] h = tt
ink_only-IsInk (c ∷ cs) h =
    let (ink, rest) = else_true (is_whitespace c) h in (ink, ink_only-IsInk cs rest)

reports_inked :
    all_below 101 (λ v. ink_only (report_text true v))
      && all_below 101 (λ v. ink_only (report_text false v))
    ≡ true
unfolding all_below ink_only decimal decimal_before
reports_inked = refl

shown_ne : (v : ℤ) → show_report v ≢ []
shown_ne (pos n) e = cc
shown_ne (negsuc n) e = cc

report_ne : (has_r : Bool) (v : ℕ) → report_text has_r v ≢ []
report_ne true v e = cc
report_ne false v e = shown_ne (minus v 50) e

report-IsInk : (has_r : Bool) (v : ℕ) → v < 101 → All IsInk (report_text has_r v)
report-IsInk true v h =
    ink_only-IsInk (report_text true v)
      (all_below_sound 101 (λ v. ink_only (report_text true v)) (ground (arith, reports_inked)) v h)
report-IsInk false v h =
    ink_only-IsInk (report_text false v) (
      all_below_sound 101 (λ v. ink_only (report_text false v)) (ground (arith, reports_inked)) v h)

grid-IsInk : (i : ℕ) → i < 32400 → All IsInk (show_grid i)
unfolding show_grid is_digit is_upper
grid-IsInk i h =
    calls-IsInk (show_grid i) (ground arith, (ground arith, (ground arith, (ground arith, tt))))

grid_split : (i : ℕ) → i < 32400 → split_whitespace (show_grid i) ≡ show_grid i ∷ []
unfolding show_grid
grid_split i h = split_whitespace-one _ _ (grid-IsInk i h)

report_split :
    (has_r : Bool) (v : ℕ)
    → v < 101
    → split_whitespace (report_text has_r v) ≡ report_text has_r v ∷ []
report_split has_r v h = one_word (report_text has_r v) (report_ne has_r v) (report-IsInk has_r v h)
  where
    one_word : (text : Text) → text ≢ [] → All IsInk text → split_whitespace text ≡ text ∷ []
    one_word [] ne ink = absurd (ne refl)
    one_word (c ∷ cs) ne ink = split_whitespace-one c cs ink

-- The words behind the second call.
tail_split :
    (c : ℕ) (w : Text) (t : Tail)
    → All IsInk (c ∷ w)
    → IsTail t
    → split_whitespace ((c ∷ w) ++ tail_text t) ≡ (c ∷ w) ∷ tail_words t
tail_split c w bare ink h = ap split_whitespace (append-nil (c ∷ w)) ∙ split_whitespace-one c w ink
tail_split c w (grid true i) ink h =
    split_whitespace-append c w (codes "R " ++ show_grid i) ink
    ∙ ap (λ ws. (c ∷ w) ∷ ws)
        (split_whitespace-append b'R' [] (show_grid i) (refl, tt)
          ∙ ap (λ ws. codes "R" ∷ ws) (grid_split i h))
tail_split c w (grid false i) ink h =
    split_whitespace-append c w (show_grid i) ink ∙ ap (λ ws. (c ∷ w) ∷ ws) (grid_split i h)
tail_split c w rrr ink h =
    split_whitespace-append c w (codes "RRR") ink
    ∙ ap (λ ws. (c ∷ w) ∷ ws) (unfold split_whitespace in refl)
tail_split c w rr73 ink h =
    split_whitespace-append c w (codes "RR73") ink
    ∙ ap (λ ws. (c ∷ w) ∷ ws) (unfold split_whitespace in refl)
tail_split c w seventy_three ink h =
    split_whitespace-append c w (codes "73") ink
    ∙ ap (λ ws. (c ∷ w) ∷ ws) (unfold split_whitespace in refl)
tail_split c w (report has_r v) ink h =
    split_whitespace-append c w (report_text has_r v) ink
    ∙ ap (λ ws. (c ∷ w) ∷ ws) (report_split has_r v h)

-- A message: two calls and an end, one blank between its words.
abbrev pub message : Text → Text → Tail → Text
message a b t = a ++ (b' ' ∷ (b ++ tail_text t))

call_ne : (call : Text) (n : ℕ) → pack28 call ≡ some n → call ≢ []
unfolding pack28 text_eq all_alphanumeric is_standard area count
call_ne [] n packed e = none_ne_some packed
call_ne (c ∷ cs) n packed e = cc

message_split :
    (a b : Text) (t : Tail)
    → a ≢ []
    → b ≢ []
    → All IsCallChar a
    → All IsCallChar b
    → IsTail t
    → split_whitespace (message a b t) ≡ a ∷ b ∷ tail_words t
message_split [] b t na nb ha hb ht = absurd (na refl)
message_split (c ∷ cs) [] t na nb ha hb ht = absurd (nb refl)
message_split (c ∷ cs) (d ∷ ds) t na nb ha hb ht =
    split_whitespace-append c cs ((d ∷ ds) ++ tail_text t) (calls-IsInk (c ∷ cs) ha)
    ∙ ap (λ ws. (c ∷ cs) ∷ ws) (tail_split d ds t (calls-IsInk (d ∷ ds) hb) ht)

-- Two calls of digits and capitals that can be packed make a message with each standard end: with
-- none, with a locator, with `R` and a locator, with `RRR`, `RR73` or `73`, and with a report of
-- -50 to +50, after an `R` or not. The message is packed, and unpacked to the same text.
pub unpack77_standard-pack77_standard :
    (a b : Text) (n28a n28b : ℕ) (t : Tail)
    → All IsCallChar a
    → All IsCallChar b
    → pack28 a ≡ some n28a
    → pack28 b ≡ some n28b
    → IsTail t
    → (bits : List ℕ) × (pack77_standard (message a b t) ≡ some bits)
      × (unpack77_standard bits ≡ some (message a b t))
unfolding pack77_standard unpack_fields
unpack77_standard-pack77_standard a b n28a n28b t ha hb ea eb ht =
    let (ir, igrid4, packed, small, fits, shown) = tail_packed a b n28a n28b ea eb t ht in
    let (bound_a, back_a) = unpack28-pack28 a n28a ha ea in
    let (bound_b, back_b) = unpack28-pack28 b n28b hb eb in
    (
      frame n28a n28b ir igrid4,
      ap pack_words (message_split a b t (call_ne a n28a ea) (call_ne b n28b eb) ha hb ht) ∙ packed,
      unpack77_standard-frame n28a n28b ir igrid4 bound_a bound_b small fits
          ∙ rw (back_a, back_b, shown) refl,
    )
