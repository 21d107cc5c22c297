-- ===== src/Mode/Config.antt =====
-- `ModeConfig` of crates/omnimodem/src/mode/mod.rs: the parser of its text. What
-- the source uses of `f32` is an argument: reading and writing a number, and the numbers that it
-- writes as literals.
pub mod Params
pub mod Arms
pub mod Back
pub mod TwoFloats
pub mod RoundTrip
mod Tests
use omnimodem.Base.{
  ℕ, Bool, true, false, ◌||◌, List, [], ◌∷◌, ◌++◌, Option, none, some, if◌then◌else◌,
}
use omnimodem.Base.Text.{Text, codes, text_eq, split_once, parse_uint, decimal}
use omnimodem.Base.Text.Words.{split, trim}
use omnimodem.Mode.Labels.{
  is_label, dominoex_labels, thor_labels, is_ifkp, ifkp_label, is_fsq, fsq_label, hell_labels,
  sstv_labels, throb_labels, mfsk_labels, mt63_labels, navtex_labels, wefax_labels,
  contestia_from_label, contestia_label, psk_labels, jt4_labels,
}

pub record Floats : Type 1 where
  pub F : Type 0
  pub read : Text → Option F
  pub show : F → Text
  pub literal : Text → F

pub data ModeConfig (F : Type 0) : Type 0 where
  no_mode : ModeConfig F
  afsk1200 : Bool → ModeConfig F
  ft8 : ModeConfig F
  cw : ℕ → F → ModeConfig F
  rtty : F → F → F → Bool → ModeConfig F
  psk : Text → F → ModeConfig F
  dominoex : Text → F → ModeConfig F
  thor : Text → F → ModeConfig F
  ifkp : Text → F → ModeConfig F
  fsq : Text → F → Text → Bool → ModeConfig F
  hell : Text → F → ModeConfig F
  sstv : Text → ModeConfig F
  throb : Text → F → ModeConfig F
  ft4 : ModeConfig F
  jt65 : ModeConfig F
  jt9 : ModeConfig F
  wspr : ModeConfig F
  mfsk : Text → F → ModeConfig F
  contestia : ℕ → ℕ → ModeConfig F
  mt63 : Text → F → ModeConfig F
  navtex : Text → F → ModeConfig F
  wefax : Text → F → ModeConfig F
  olivia : ℕ → ℕ → ModeConfig F
  fst4 : ℕ → ModeConfig F
  js8 : Text → ModeConfig F
  jt4 : Text → ModeConfig F
  msk144 : F → ModeConfig F
  adsb : ModeConfig F

-- `parse_params`: pieces without an equals sign are skipped.
unfoldable pub param : Text → List (Text × Text) → List (Text × Text)
param piece rest = elim (split_once b'=' piece) [
  | none ↦ rest
  | some (k, v) ↦ (trim k, trim v) ∷ rest
]

unfoldable pub params : List Text → List (Text × Text)
params [] = []
params (piece ∷ pieces) = param piece (params pieces)

unfoldable pub parse_params : Option Text → List (Text × Text)
parse_params none = params (split b',' [])
parse_params (some tail) = params (split b',' tail)

-- The map is collected from the pairs: the last value of a key stands.
unfoldable pub value_of : Text → List (Text × Text) → Option Text
value_of k [] = none
value_of k ((j, v) ∷ kv) = elim (value_of k kv) [
  | some later ↦ some later
  | none ↦ if text_eq j k then some v else none
]

unfoldable pub num_of : Text → ℕ → List (Text × Text) → ℕ
num_of k d kv = elim (value_of k kv) [
  | none ↦ d
  | some v ↦ elim (parse_uint 10 65535 v) [ none ↦ d | some n ↦ n ]
]

unfoldable pub flag_of : Text → List (Text × Text) → Bool
flag_of k kv = elim (value_of k kv) [
  | none ↦ false
  | some v ↦ text_eq v (codes "1") || text_eq v (codes "true")
]

unfoldable pub text_of : Text → List (Text × Text) → Text
text_of k kv = elim (value_of k kv) [ none ↦ [] | some v ↦ v ]

abbrev pub js8_submodes : List Text
js8_submodes = codes "normal" ∷ codes "fast" ∷ codes "turbo" ∷ codes "slow" ∷ []

-- The submode of JS8, `normal` if it is none of the four.
unfoldable pub js8_submode : Text → Text
js8_submode s = if is_label js8_submodes s then s else codes "normal"

unfoldable pub js8_of : List (Text × Text) → Text
js8_of kv = elim (value_of (codes "sub") kv) [ none ↦ codes "normal" | some s ↦ js8_submode s ]

abbrev pub show_bool : Bool → Text
show_bool true = codes "true"
show_bool false = codes "false"

-- The arms of `parse`, in the order of the source.
pub data Arm : Type 0 where
  of_none : Arm
  of_afsk1200 : Arm
  of_ft8 : Arm
  of_cw : Arm
  of_rtty : Arm
  of_dominoex : Arm
  of_thor : Arm
  of_ifkp : Arm
  of_fsq : Arm
  of_hell : Arm
  of_sstv : Arm
  of_throb : Arm
  of_mfsk : Arm
  of_mt63 : Arm
  of_navtex : Arm
  of_wefax : Arm
  of_contestia : ℕ → ℕ → Arm
  of_psk : Arm
  of_ft4 : Arm
  of_jt65 : Arm
  of_jt9 : Arm
  of_wspr : Arm
  of_fst4 : Arm
  of_js8 : Arm
  of_msk144 : Arm
  of_adsb : Arm
  of_jt4 : Arm
  of_olivia : Arm

-- The arms behind that of Contestia.
unfoldable pub late_arm : Text → Option Arm
late_arm m =
    if is_label psk_labels m
    then some of_psk
    else if text_eq m (codes "ft4")
    then some of_ft4
    else if text_eq m (codes "jt65")
    then some of_jt65
    else if text_eq m (codes "jt9")
    then some of_jt9
    else if text_eq m (codes "wspr")
    then some of_wspr
    else if text_eq m (codes "fst4")
    then some of_fst4
    else if text_eq m (codes "js8")
    then some of_js8
    else if text_eq m (codes "msk144")
    then some of_msk144
    else if text_eq m (codes "adsb")
    then some of_adsb
    else if is_label jt4_labels m
    then some of_jt4
    else if text_eq m (codes "olivia")
    then some of_olivia
    else none

unfoldable pub arm_of : Text → Option Arm
unfolding late_arm
arm_of m =
    if text_eq m (codes "none") || text_eq m []
    then some of_none
    else if text_eq m (codes "afsk1200")
    then some of_afsk1200
    else if text_eq m (codes "ft8")
    then some of_ft8
    else if text_eq m (codes "cw")
    then some of_cw
    else if text_eq m (codes "rtty")
    then some of_rtty
    else if is_label dominoex_labels m
    then some of_dominoex
    else if is_label thor_labels m
    then some of_thor
    else if is_ifkp m
    then some of_ifkp
    else if is_fsq m
    then some of_fsq
    else if is_label hell_labels m
    then some of_hell
    else if is_label sstv_labels m
    then some of_sstv
    else if is_label throb_labels m
    then some of_throb
    else if is_label mfsk_labels m
    then some of_mfsk
    else if is_label mt63_labels m
    then some of_mt63
    else if is_label navtex_labels m
    then some of_navtex
    else if is_label wefax_labels m
    then some of_wefax
    else elim (contestia_from_label m) [
      | some (tones, bandwidth_hz) ↦ some (of_contestia tones bandwidth_hz)
      | none ↦ late_arm m
    ]

module _ (fl : Floats) where
  unfoldable pub float_of : Text → fl.F → List (Text × Text) → fl.F
  float_of k d kv = elim (value_of k kv) [
    | none ↦ d
    | some v ↦ elim (fl.read v) [ none ↦ d | some x ↦ x ]
  ]

  abbrev center : Text → List (Text × Text) → fl.F
  center d kv = float_of (codes "center") (fl.literal d) kv

  -- What an arm makes of the mode's text and the parameters.
  unfoldable pub build : Arm → Text → List (Text × Text) → ModeConfig fl.F
  build of_none m kv = no_mode
  build of_afsk1200 m kv = afsk1200 true
  build of_ft8 m kv = ft8
  build of_cw m kv =
      cw (num_of (codes "wpm") 20 kv) (float_of (codes "tone") (fl.literal (codes "700.0")) kv)
  build of_rtty m kv =
      rtty (float_of (codes "baud") (fl.literal (codes "45.45")) kv)
        (float_of (codes "shift") (fl.literal (codes "170.0")) kv) (center (codes "2210.0") kv)
        (flag_of (codes "reverse") kv)
  build of_dominoex m kv = dominoex m (center (codes "1500.0") kv)
  build of_thor m kv = thor m (center (codes "1500.0") kv)
  build of_ifkp m kv = ifkp m (center (codes "1500.0") kv)
  build of_fsq m kv =
      fsq m (center (codes "1500.0") kv) (text_of (codes "mycall") kv)
        (flag_of (codes "directed") kv)
  build of_hell m kv = hell m (center (codes "1500.0") kv)
  build of_sstv m kv = sstv m
  build of_throb m kv = throb m (center (codes "1500.0") kv)
  build of_mfsk m kv = mfsk m (center (codes "1500.0") kv)
  build of_mt63 m kv = mt63 m (center (codes "1500.0") kv)
  build of_navtex m kv = navtex m (center (codes "1000.0") kv)
  build of_wefax m kv = wefax m (center (codes "1900.0") kv)
  build (of_contestia tones bandwidth_hz) m kv = contestia tones bandwidth_hz
  build of_psk m kv =
      psk m (center (if text_eq m (codes "psk31") then codes "1000.0" else codes "1500.0") kv)
  build of_ft4 m kv = ft4
  build of_jt65 m kv = jt65
  build of_jt9 m kv = jt9
  build of_wspr m kv = wspr
  build of_fst4 m kv = fst4 (num_of (codes "tr") 15 kv)
  build of_js8 m kv = js8 (js8_of kv)
  build of_msk144 m kv = msk144 (float_of (codes "freq") (fl.literal (codes "1500.0")) kv)
  build of_adsb m kv = adsb
  build of_jt4 m kv = jt4 m
  build of_olivia m kv = olivia (num_of (codes "tones") 32 kv) (num_of (codes "bw") 1000 kv)

  abbrev pub dispatch : Option Arm → Text → List (Text × Text) → Option (ModeConfig fl.F)
  dispatch none m kv = none
  dispatch (some arm) m kv = some (build arm m kv)

  unfoldable pub parse : Text → Option (ModeConfig fl.F)
  parse s = elim (split_once b':' s) [
    | some (mode, tail) ↦ dispatch (arm_of mode) mode (parse_params (some tail))
    | none ↦ dispatch (arm_of s) s (parse_params none)
  ]
