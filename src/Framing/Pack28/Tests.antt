-- ===== src/Framing/Pack28/Tests.antt =====
-- Concrete callsigns.
use omnimodem.Base.{◌<◌, ◌^◌, ◌≡◌, refl, some}
use omnimodem.Base.Text.{codes, text_eq}
use omnimodem.Framing.Pack28.{
  is_digit, is_upper, is_alphanumeric, all_alphanumeric, area_from, area, count, is_standard, fill,
  field_of, idx_from, idx, pack_field, pack28, unpack28,
}
use omnimodem.Framing.Pack28.RoundTrip.{unpack28-pack28}

k1abc : pack28 (codes "K1ABC") ≡ some 10214965
unfolding pack28 text_eq all_alphanumeric is_alphanumeric is_digit is_upper is_standard area
    area_from count field_of fill pack_field idx idx_from
k1abc = refl

unpack28-pack28_example : (10214965 < 2 ^ 28) × (unpack28 10214965 ≡ some (codes "K1ABC"))
unfolding is_digit is_upper
unpack28-pack28_example =
    unpack28-pack28 (codes "K1ABC") 10214965 (refl, (refl, (refl, (refl, (refl, tt))))) k1abc

-- A small letter that no longer fits the field is dropped.
small_letter_dropped : pack28 (codes "K1ABCx") ≡ pack28 (codes "K1ABC")
unfolding pack28 text_eq all_alphanumeric is_alphanumeric is_digit is_upper is_standard area
    area_from count field_of fill pack_field idx idx_from
small_letter_dropped = refl
