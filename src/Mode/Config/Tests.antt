-- ===== src/Mode/Config/Tests.antt =====
-- Concrete mode texts, over two numbers that are written `1500` and `750`.
use omnimodem.Base.{◌≡◌, refl, Bool, true, false, none, some}
use omnimodem.Base.Text.{codes, text_eq, split_once, decimal, decimal_before}
use omnimodem.Base.Text.Words.{split, trim, trim_start, trim_end}
use omnimodem.Mode.Labels.{is_label, is_ifkp, is_fsq, contestia_from_label, strip_prefix}
use omnimodem.Mode.Config.{
  cw, fsq, contestia, parse, params, parse_params, param, arm_of, late_arm, build, float_of,
  flag_of, text_of, value_of,
}
use omnimodem.Mode.Config.Params.{is_plain, plain-IsValue}
use omnimodem.Mode.Config.TwoFloats.{two_floats, two_floats-FloatLaws}
use omnimodem.Mode.Config.RoundTrip.{parse-to_mode_string}
use omnimodem.Mode.Print.{to_mode_string, label}

cw_text : to_mode_string two_floats (cw 25 false) ≡ codes "cw:wpm=25,tone=750"
unfolding to_mode_string decimal decimal_before
cw_text = refl

psk_parsed : parse two_floats (codes "bpsk125: center = 750 ,x") ≡ none
unfolding parse split_once arm_of late_arm is_label is_ifkp is_fsq text_eq contestia_from_label
    strip_prefix
psk_parsed = refl

parse-to_mode_string_example :
    parse two_floats (to_mode_string two_floats (fsq (codes "fsq-3") false (codes "N0CALL") true))
    ≡ some (fsq (codes "fsq-3") false (codes "N0CALL") true)
parse-to_mode_string_example =
    parse-to_mode_string two_floats two_floats-FloatLaws
      (fsq (codes "fsq-3") false (codes "N0CALL") true)
      (
        (unfold is_fsq is_label text_eq in refl),
        plain-IsValue (codes "N0CALL") (unfold is_plain in refl),
      )

-- A comma in the callsign ends it: what follows is taken for another parameter.
comma_lost :
    parse two_floats (to_mode_string two_floats (fsq (codes "fsq-3") false (codes "A,B") false))
    ≡ some (fsq (codes "fsq-3") false (codes "A") false)
unfolding parse split_once arm_of late_arm is_label is_ifkp is_fsq text_eq to_mode_string split trim
    trim_start trim_end parse_params params param build float_of value_of flag_of text_of
comma_lost = refl

-- The label of a mode of Contestia is no mode text.
contestia_label_refused : parse two_floats (label {F = Bool} (contestia 8 500)) ≡ none
unfolding parse label split_once arm_of late_arm is_label is_ifkp is_fsq text_eq
    contestia_from_label strip_prefix
contestia_label_refused = refl
