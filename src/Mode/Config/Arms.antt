-- ===== src/Mode/Config/Arms.antt =====
-- The arm that each label takes, checked over the tables of labels.
pub mod Tables
pub mod Grid
use omnimodem.Base.{
  ℕ, ◌≡◌, ◌≢◌, refl, ◌∙◌, sym, ap, Bool, true, false, ◌&&◌, ◌||◌, List, [], ◌∷◌, Option, none, some,
  All, arith, ◌==◌, ==_iff, if◌then◌else◌, not, inl, inr, Bool-cases,
}
use omnimodem.Base.Text.{Text, codes, text_eq, split_once, parse_uint, parse_digits, to_digit}
use omnimodem.Base.Text.Laws.{Lacks, text_eq_sound}
use omnimodem.Mode.Labels.{
  is_label, dominoex_labels, thor_labels, is_ifkp, ifkp_labels, is_fsq, fsq_labels, hell_labels,
  sstv_labels, throb_labels, mfsk_labels, mt63_labels, navtex_labels, wefax_labels,
  contestia_from_label, psk_labels, jt4_labels, strip_prefix, in_grid,
}
use omnimodem.Mode.Config.{
  Arm, of_none, of_afsk1200, of_ft8, of_cw, of_rtty, of_dominoex, of_thor, of_ifkp, of_fsq, of_hell,
  of_sstv, of_throb, of_mfsk, of_mt63, of_navtex, of_wefax, of_contestia, of_psk, of_ft4, of_jt65,
  of_jt9, of_wspr, of_fst4, of_js8, of_msk144, of_adsb, of_jt4, of_olivia, arm_of, late_arm,
}

-- A number for each arm; that of Contestia holds more than its number.
abbrev pub tag : Option Arm → ℕ
tag none = 0
tag (some of_none) = 1
tag (some of_afsk1200) = 2
tag (some of_ft8) = 3
tag (some of_cw) = 4
tag (some of_rtty) = 5
tag (some of_dominoex) = 6
tag (some of_thor) = 7
tag (some of_ifkp) = 8
tag (some of_fsq) = 9
tag (some of_hell) = 10
tag (some of_sstv) = 11
tag (some of_throb) = 12
tag (some of_mfsk) = 13
tag (some of_mt63) = 14
tag (some of_navtex) = 15
tag (some of_wefax) = 16
tag (some (of_contestia t b)) = 17
tag (some of_psk) = 18
tag (some of_ft4) = 19
tag (some of_jt65) = 20
tag (some of_jt9) = 21
tag (some of_wspr) = 22
tag (some of_fst4) = 23
tag (some of_js8) = 24
tag (some of_msk144) = 25
tag (some of_adsb) = 26
tag (some of_jt4) = 27
tag (some of_olivia) = 28

abbrev pub arm_at : ℕ → Option Arm
arm_at n =
    if n == 1
    then some of_none
    else if n == 2
    then some of_afsk1200
    else if n == 3
    then some of_ft8
    else if n == 4
    then some of_cw
    else if n == 5
    then some of_rtty
    else if n == 6
    then some of_dominoex
    else if n == 7
    then some of_thor
    else if n == 8
    then some of_ifkp
    else if n == 9
    then some of_fsq
    else if n == 10
    then some of_hell
    else if n == 11
    then some of_sstv
    else if n == 12
    then some of_throb
    else if n == 13
    then some of_mfsk
    else if n == 14
    then some of_mt63
    else if n == 15
    then some of_navtex
    else if n == 16
    then some of_wefax
    else if n == 18
    then some of_psk
    else if n == 19
    then some of_ft4
    else if n == 20
    then some of_jt65
    else if n == 21
    then some of_jt9
    else if n == 22
    then some of_wspr
    else if n == 23
    then some of_fst4
    else if n == 24
    then some of_js8
    else if n == 25
    then some of_msk144
    else if n == 26
    then some of_adsb
    else if n == 27
    then some of_jt4
    else if n == 28
    then some of_olivia
    else none

arm_at-tag : (o : Option Arm) → tag o ≢ 17 → arm_at (tag o) ≡ o
arm_at-tag none h = refl
arm_at-tag (some of_none) h = refl
arm_at-tag (some of_afsk1200) h = refl
arm_at-tag (some of_ft8) h = refl
arm_at-tag (some of_cw) h = refl
arm_at-tag (some of_rtty) h = refl
arm_at-tag (some of_dominoex) h = refl
arm_at-tag (some of_thor) h = refl
arm_at-tag (some of_ifkp) h = refl
arm_at-tag (some of_fsq) h = refl
arm_at-tag (some of_hell) h = refl
arm_at-tag (some of_sstv) h = refl
arm_at-tag (some of_throb) h = refl
arm_at-tag (some of_mfsk) h = refl
arm_at-tag (some of_mt63) h = refl
arm_at-tag (some of_navtex) h = refl
arm_at-tag (some of_wefax) h = refl
arm_at-tag (some (of_contestia t b)) h = absurd (h refl)
arm_at-tag (some of_psk) h = refl
arm_at-tag (some of_ft4) h = refl
arm_at-tag (some of_jt65) h = refl
arm_at-tag (some of_jt9) h = refl
arm_at-tag (some of_wspr) h = refl
arm_at-tag (some of_fst4) h = refl
arm_at-tag (some of_js8) h = refl
arm_at-tag (some of_msk144) h = refl
arm_at-tag (some of_adsb) h = refl
arm_at-tag (some of_jt4) h = refl
arm_at-tag (some of_olivia) h = refl

unfoldable pub lacks : ℕ → Text → Bool
lacks sep [] = true
lacks sep (c ∷ cs) = not (c == sep) && lacks sep cs

pub lacks_sound : (sep : ℕ) (text : Text) → lacks sep text ≡ true → Lacks sep text
unfolding lacks
lacks_sound sep [] h = tt
lacks_sound sep (c ∷ cs) h = ((λ e. ground arith), lacks_sound sep cs (ground arith))

-- A label that takes an arm, and holds no colon.
abbrev pub takes : ℕ → Text → Bool
takes n s = tag (arm_of s) == n && lacks b':' s

unfoldable pub all_take : ℕ → List Text → Bool
all_take n [] = true
all_take n (l ∷ ls) = takes n l && all_take n ls

-- What is used of a label.
abbrev pub Takes : Arm → Text → Type 0
Takes arm s = (arm_of s ≡ some arm) × Lacks b':' s

pub takes_sound :
    (arm : Arm) (s : Text)
    → tag (some arm) ≢ 17
    → arm_at (tag (some arm)) ≡ some arm
    → takes (tag (some arm)) s ≡ true
    → Takes arm s
takes_sound arm s plain back h =
    let same : tag (arm_of s) ≡ tag (some arm) = ground arith in
    (
      sym (arm_at-tag (arm_of s) (λ e. plain (sym same ∙ e))) ∙ ap arm_at same ∙ back,
      lacks_sound b':' s (ground arith),
    )

pub all_take_sound :
    (n : ℕ) (labels : List Text) (s : Text)
    → all_take n labels ≡ true
    → is_label labels s ≡ true
    → takes n s ≡ true
unfolding all_take is_label
all_take_sound n [] s h e = cc
all_take_sound n (l ∷ ls) s h e = elim (Bool-cases (text_eq l s)) [
  | inl here ↦ rw (← text_eq_sound l s here) (ground arith)
  | inr later ↦ all_take_sound n ls s (ground arith) (rw later at e)
]
