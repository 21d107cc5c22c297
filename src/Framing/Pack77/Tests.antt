-- ===== src/Framing/Pack77/Tests.antt =====
-- Concrete messages.
use omnimodem.Base.{ℕ, ◌≡◌, refl, true, false, List, some, arith, map, ◌-◌}
use omnimodem.Base.Text.{codes, text_eq, parse_digits, to_digit, decimal, decimal_before}
use omnimodem.Base.Text.Words.{split_whitespace}
use omnimodem.Framing.Pack28.{
  is_digit, is_upper, is_alphanumeric, all_alphanumeric, area_from, area, count, is_standard, fill,
  field_of, idx_from, idx, pack_field, pack28,
}
use omnimodem.Framing.Pack77.{
  is_grid4, parse_i32, rpt, signed_report, encode_grid_report, shr, push_bits, frame, pack_words,
  pack77_standard, bits_from, bits_to_u32, show_grid, unpack_tail, unpack77_standard,
}
use omnimodem.Framing.Pack77.Tail.{report}
use omnimodem.Framing.Pack77.RoundTrip.{unpack77_standard-pack77_standard}

w1aw : pack28 (codes "W1AW") ≡ some 12577489
unfolding pack28 text_eq all_alphanumeric is_alphanumeric is_digit is_upper is_standard area
    area_from count field_of fill pack_field idx idx_from
w1aw = refl

cq : pack28 (codes "CQ") ≡ some 2
unfolding pack28 text_eq
cq = refl

unpack77_standard-pack77_standard_example :
    (bits : List ℕ) × (pack77_standard (codes "CQ W1AW R-09") ≡ some bits)
    × (unpack77_standard bits ≡ some (codes "CQ W1AW R-09"))
unfolding is_digit is_upper decimal decimal_before
unpack77_standard-pack77_standard_example =
    unpack77_standard-pack77_standard (codes "CQ") (codes "W1AW") 2 12577489 (report true 41)
      (refl, (refl, tt)) (refl, (refl, (refl, (refl, tt)))) cq w1aw (omega arith)

-- The golden vector of the source's test.
golden :
    pack77_standard (codes "CQ W1AW")
    ≡ some (
        map
          (λ c. c - b'0')
          (codes "00000000000000000000000000100000010111111111010101101000100111111010010001001"))
unfolding pack77_standard split_whitespace pack_words pack28 text_eq all_alphanumeric
    is_alphanumeric is_digit is_upper is_standard area area_from count field_of fill pack_field idx
    idx_from frame push_bits shr
golden = refl

-- `RR73` is a locator for the encoder: its own arm is never reached.
rr73_locator : encode_grid_report (codes "RR73") false ≡ some (0, 32373)
unfolding encode_grid_report is_grid4 is_digit
rr73_locator = refl

-- A report that is too large is cut to 15 bits, where it is a locator.
large_report : encode_grid_report (codes "+400") false ≡ some (0, 32835)
unfolding encode_grid_report is_grid4 is_digit text_eq signed_report rpt parse_i32 parse_digits
    to_digit
large_report = refl

cut_to_locator : bits_to_u32 (push_bits 32835 15) ≡ 67
unfolding bits_to_u32 bits_from push_bits shr
cut_to_locator = refl

locator_shown : unpack_tail 0 67 ≡ codes " AA67"
unfolding unpack_tail show_grid
locator_shown = refl
