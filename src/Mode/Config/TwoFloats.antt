-- ===== src/Mode/Config/TwoFloats.antt =====
-- Floating point for tests: two numbers, written `1500` and `750`.
use omnimodem.Base.{◌≡◌, refl, Bool, true, false, Option, none, some, if◌then◌else◌}
use omnimodem.Base.Text.{Text, codes, text_eq}
use omnimodem.Mode.Config.{Floats}
use omnimodem.Mode.Config.Params.{IsValue, is_plain, plain-IsValue}
use omnimodem.Mode.Config.Back.{FloatLaws}

abbrev pub read_one : Text → Option Bool
read_one t =
    if text_eq t (codes "1500")
    then some true
    else if text_eq t (codes "750")
    then some false
    else none

abbrev pub show_one : Bool → Text
show_one true = codes "1500"
show_one false = codes "750"

abbrev pub two_floats : Floats
two_floats = record { F = Bool; read = read_one; show = show_one; literal = λ t. true }

pub two_floats-FloatLaws : FloatLaws two_floats
two_floats-FloatLaws = record { read-show = back; show-IsValue = plain }
  where
    back : (x : Bool) → read_one (show_one x) ≡ some x
    back true = unfold text_eq in refl
    back false = unfold text_eq in refl

    plain : (x : Bool) → IsValue (show_one x)
    plain true = plain-IsValue (codes "1500") (unfold is_plain in refl)
    plain false = plain-IsValue (codes "750") (unfold is_plain in refl)
