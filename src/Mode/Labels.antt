-- ===== src/Mode/Labels.antt =====
-- The submode labels that the modes accept, `from_label` and `label` in crates/dsp/src/modes. A
-- variant stands as its own label, the text that `label` gives.
use omnimodem.Base.{
  ℕ, Bool, false, ◌||◌, ◌&&◌, List, [], ◌∷◌, ◌++◌, Option, none, some, ◌==◌, if◌then◌else◌,
}
use omnimodem.Base.Text.{Text, codes, text_eq, split_once, parse_uint, decimal}

unfoldable pub is_label : List Text → Text → Bool
is_label [] s = false
is_label (l ∷ ls) s = text_eq l s || is_label ls s

abbrev pub dominoex_labels : List Text
dominoex_labels =
    codes "dominoexmicro"
    ∷ codes "dominoex4"
    ∷ codes "dominoex5"
    ∷ codes "dominoex8"
    ∷ codes "dominoex11"
    ∷ codes "dominoex16"
    ∷ codes "dominoex22"
    ∷ codes "dominoex44"
    ∷ codes "dominoex88"
    ∷ []

abbrev pub thor_labels : List Text
thor_labels =
    codes "thormicro"
    ∷ codes "thor4"
    ∷ codes "thor5"
    ∷ codes "thor8"
    ∷ codes "thor11"
    ∷ codes "thor16"
    ∷ codes "thor22"
    ∷ codes "thor25x4"
    ∷ codes "thor50x1"
    ∷ codes "thor50x2"
    ∷ codes "thor100"
    ∷ []

abbrev pub hell_labels : List Text
hell_labels =
    codes "feldhell" ∷ codes "slowhell" ∷ codes "hellx5" ∷ codes "hellx9" ∷ codes "hell80" ∷ []

abbrev pub throb_labels : List Text
throb_labels =
    codes "throb1"
    ∷ codes "throb2"
    ∷ codes "throb4"
    ∷ codes "throbx1"
    ∷ codes "throbx2"
    ∷ codes "throbx4"
    ∷ []

abbrev pub mfsk_labels : List Text
mfsk_labels =
    codes "mfsk4"
    ∷ codes "mfsk8"
    ∷ codes "mfsk11"
    ∷ codes "mfsk16"
    ∷ codes "mfsk22"
    ∷ codes "mfsk31"
    ∷ codes "mfsk32"
    ∷ codes "mfsk64"
    ∷ codes "mfsk128"
    ∷ codes "mfsk64l"
    ∷ codes "mfsk128l"
    ∷ []

abbrev pub mt63_labels : List Text
mt63_labels =
    codes "mt63_500s"
    ∷ codes "mt63_500l"
    ∷ codes "mt63_1000s"
    ∷ codes "mt63_1000l"
    ∷ codes "mt63_2000s"
    ∷ codes "mt63_2000l"
    ∷ []

abbrev pub navtex_labels : List Text
navtex_labels = codes "navtex" ∷ codes "sitorb" ∷ []

abbrev pub wefax_labels : List Text
wefax_labels = codes "wefax576" ∷ codes "wefax288" ∷ []

abbrev pub psk_labels : List Text
psk_labels =
    codes "psk31"
    ∷ codes "psk63"
    ∷ codes "psk125"
    ∷ codes "psk250"
    ∷ codes "psk500"
    ∷ codes "psk1000"
    ∷ codes "qpsk31"
    ∷ codes "qpsk63"
    ∷ codes "qpsk125"
    ∷ codes "qpsk250"
    ∷ codes "qpsk500"
    ∷ codes "psk63f"
    ∷ codes "psk125r"
    ∷ codes "psk250r"
    ∷ codes "psk500r"
    ∷ codes "psk1000r"
    ∷ codes "psk63rc4"
    ∷ codes "psk63rc5"
    ∷ codes "psk63rc10"
    ∷ codes "psk63rc20"
    ∷ codes "psk63rc32"
    ∷ codes "psk125rc4"
    ∷ codes "psk125rc5"
    ∷ codes "psk125rc10"
    ∷ codes "psk125rc12"
    ∷ codes "psk125rc16"
    ∷ codes "psk250rc2"
    ∷ codes "psk250rc3"
    ∷ codes "psk250rc5"
    ∷ codes "psk250rc6"
    ∷ codes "psk250rc7"
    ∷ codes "psk500rc2"
    ∷ codes "psk500rc3"
    ∷ codes "psk500rc4"
    ∷ codes "psk125c12"
    ∷ codes "psk250c6"
    ∷ codes "psk500c2"
    ∷ codes "psk500c4"
    ∷ codes "psk1000c2"
    ∷ []

abbrev pub sstv_labels : List Text
sstv_labels =
    codes "robot36"
    ∷ codes "robot72"
    ∷ codes "robot24"
    ∷ codes "bw8"
    ∷ codes "bw12"
    ∷ codes "avt90"
    ∷ codes "scottie1"
    ∷ codes "scottie2"
    ∷ codes "scottiedx"
    ∷ codes "martin1"
    ∷ codes "martin2"
    ∷ codes "sc2-180"
    ∷ codes "sc2-120"
    ∷ codes "sc2-60"
    ∷ codes "pd50"
    ∷ codes "pd90"
    ∷ codes "pd120"
    ∷ codes "pd160"
    ∷ codes "pd180"
    ∷ codes "pd240"
    ∷ codes "pd290"
    ∷ codes "p3"
    ∷ codes "p5"
    ∷ codes "p7"
    ∷ codes "mr73"
    ∷ codes "mr90"
    ∷ codes "mr115"
    ∷ codes "mr140"
    ∷ codes "mr175"
    ∷ codes "ml180"
    ∷ codes "ml240"
    ∷ codes "ml280"
    ∷ codes "ml320"
    ∷ codes "mp73"
    ∷ codes "mp115"
    ∷ codes "mp140"
    ∷ codes "mp175"
    ∷ codes "mp73-n"
    ∷ codes "mp110-n"
    ∷ codes "mp140-n"
    ∷ codes "mc110-n"
    ∷ codes "mc140-n"
    ∷ codes "mc180-n"
    ∷ []

abbrev pub jt4_labels : List Text
jt4_labels =
    codes "jt4a"
    ∷ codes "jt4b"
    ∷ codes "jt4c"
    ∷ codes "jt4d"
    ∷ codes "jt4e"
    ∷ codes "jt4f"
    ∷ codes "jt4g"
    ∷ []

-- `IfkpSpeed` and `FsqSpeed` have an alias each, which `label` replaces.
abbrev pub ifkp_labels : List Text
ifkp_labels = codes "ifkp" ∷ codes "ifkp-slow" ∷ codes "ifkp-fast" ∷ []

unfoldable pub is_ifkp : Text → Bool
is_ifkp s = is_label ifkp_labels s || text_eq s (codes "ifkp-normal")

unfoldable pub ifkp_label : Text → Text
ifkp_label s = if text_eq s (codes "ifkp-normal") then codes "ifkp" else s

abbrev pub fsq_labels : List Text
fsq_labels = codes "fsq-1.5" ∷ codes "fsq-2" ∷ codes "fsq-3" ∷ codes "fsq-4.5" ∷ codes "fsq-6" ∷ []

unfoldable pub is_fsq : Text → Bool
is_fsq s = is_label fsq_labels s || text_eq s (codes "fsq")

unfoldable pub fsq_label : Text → Text
fsq_label s = if text_eq s (codes "fsq") then codes "fsq-3" else s

-- The grid of Contestia: tones and bandwidth.
abbrev pub contestia_grid : List (ℕ × ℕ)
contestia_grid =
    (4, 125)
    ∷ (4, 250)
    ∷ (4, 500)
    ∷ (4, 1000)
    ∷ (4, 2000)
    ∷ (8, 125)
    ∷ (8, 250)
    ∷ (8, 500)
    ∷ (8, 1000)
    ∷ (8, 2000)
    ∷ (16, 250)
    ∷ (16, 500)
    ∷ (16, 1000)
    ∷ (16, 2000)
    ∷ (32, 1000)
    ∷ (32, 2000)
    ∷ (64, 500)
    ∷ (64, 1000)
    ∷ (64, 2000)
    ∷ []

unfoldable pub in_grid : List (ℕ × ℕ) → ℕ → ℕ → Bool
in_grid [] t b = false
in_grid ((t', b') ∷ grid) t b = (t' == t && b' == b) || in_grid grid t b

-- `strip_prefix`
unfoldable pub strip_prefix : Text → Text → Option Text
strip_prefix [] s = some s
strip_prefix (p ∷ ps) [] = none
strip_prefix (p ∷ ps) (c ∷ cs) = if p == c then strip_prefix ps cs else none

infixl 5 ◌>>=◌
abbrev ◌>>=◌ : {A B : Type 0} → Option A → (A → Option B) → Option B
none >>= f = none
some a >>= f = f a

unfoldable pub contestia_from_label : Text → Option (ℕ × ℕ)
contestia_from_label s = do
  rest ← strip_prefix (codes "contestia") s
  (t, b) ← split_once b'_' rest
  tones ← parse_uint 10 65535 t
  bandwidth_hz ← parse_uint 10 65535 b
  if in_grid contestia_grid tones bandwidth_hz then some (tones, bandwidth_hz) else none

unfoldable pub contestia_label : ℕ → ℕ → Text
contestia_label tones bandwidth_hz =
    codes "contestia" ++ (decimal tones ++ (b'_' ∷ decimal bandwidth_hz))
