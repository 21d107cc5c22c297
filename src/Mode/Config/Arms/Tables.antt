-- ===== src/Mode/Config/Arms/Tables.antt =====
-- The tables of labels, each with its arm.
use omnimodem.Base.{ℕ, ◌≡◌, refl, true, List, [], ◌∷◌, All, arith, inl, inr, Bool-cases}
use omnimodem.Base.Text.{Text, codes, text_eq, split_once, parse_uint, parse_digits, to_digit}
use omnimodem.Base.Text.Laws.{text_eq_sound}
use omnimodem.Mode.Labels.{
  is_label, dominoex_labels, thor_labels, is_ifkp, ifkp_labels, is_fsq, fsq_labels, hell_labels,
  sstv_labels, throb_labels, mfsk_labels, mt63_labels, navtex_labels, wefax_labels,
  contestia_from_label, psk_labels, jt4_labels, strip_prefix,
}
use omnimodem.Mode.Config.{
  of_none, of_afsk1200, of_ft8, of_cw, of_rtty, of_dominoex, of_thor, of_ifkp, of_fsq, of_hell,
  of_sstv, of_throb, of_mfsk, of_mt63, of_navtex, of_wefax, of_psk, of_ft4, of_jt65, of_jt9,
  of_wspr, of_fst4, of_js8, of_msk144, of_adsb, of_jt4, of_olivia, arm_of, late_arm,
}
use omnimodem.Mode.Config.Arms.{lacks, all_take, takes, Takes, takes_sound, all_take_sound}

-- Every table, with the number of its arm.
abbrev tables : List (ℕ × List Text)
tables =
    (6, dominoex_labels)
    ∷ (7, thor_labels)
    ∷ (10, hell_labels)
    ∷ (11, sstv_labels)
    ∷ (12, throb_labels)
    ∷ (13, mfsk_labels)
    ∷ (14, mt63_labels)
    ∷ (15, navtex_labels)
    ∷ (16, wefax_labels)
    ∷ (18, psk_labels)
    ∷ (27, jt4_labels)
    ∷ (8, (codes "ifkp-normal" ∷ ifkp_labels))
    ∷ (9, (codes "fsq" ∷ fsq_labels))
    ∷ []

tables_take : All (λ (n, labels). all_take n labels ≡ true) tables
unfolding all_take lacks arm_of late_arm is_label is_ifkp is_fsq text_eq contestia_from_label
    strip_prefix split_once parse_uint parse_digits to_digit
tables_take = (
  refl,
  (
    refl,
    (refl, (refl, (refl, (refl, (refl, (refl, (refl, (refl, (refl, (refl, (refl, tt))))))))))),
  ),
)

pub dominoex-Takes : (s : Text) → is_label dominoex_labels s ≡ true → Takes of_dominoex s
dominoex-Takes s h =
    takes_sound of_dominoex s (λ e. omega arith) refl
      (all_take_sound 6 dominoex_labels s (tables_take.0) h)

pub thor-Takes : (s : Text) → is_label thor_labels s ≡ true → Takes of_thor s
thor-Takes s h =
    takes_sound of_thor s (λ e. omega arith) refl
      (all_take_sound 7 thor_labels s (tables_take.1.0) h)

pub hell-Takes : (s : Text) → is_label hell_labels s ≡ true → Takes of_hell s
hell-Takes s h =
    takes_sound of_hell s (λ e. omega arith) refl
      (all_take_sound 10 hell_labels s (tables_take.1.1.0) h)

pub sstv-Takes : (s : Text) → is_label sstv_labels s ≡ true → Takes of_sstv s
sstv-Takes s h =
    takes_sound of_sstv s (λ e. omega arith) refl
      (all_take_sound 11 sstv_labels s (tables_take.1.1.1.0) h)

pub throb-Takes : (s : Text) → is_label throb_labels s ≡ true → Takes of_throb s
throb-Takes s h =
    takes_sound of_throb s (λ e. omega arith) refl
      (all_take_sound 12 throb_labels s (tables_take.1.1.1.1.0) h)

pub mfsk-Takes : (s : Text) → is_label mfsk_labels s ≡ true → Takes of_mfsk s
mfsk-Takes s h =
    takes_sound of_mfsk s (λ e. omega arith) refl
      (all_take_sound 13 mfsk_labels s (tables_take.1.1.1.1.1.0) h)

pub mt63-Takes : (s : Text) → is_label mt63_labels s ≡ true → Takes of_mt63 s
mt63-Takes s h =
    takes_sound of_mt63 s (λ e. omega arith) refl
      (all_take_sound 14 mt63_labels s (tables_take.1.1.1.1.1.1.0) h)

pub navtex-Takes : (s : Text) → is_label navtex_labels s ≡ true → Takes of_navtex s
navtex-Takes s h =
    takes_sound of_navtex s (λ e. omega arith) refl
      (all_take_sound 15 navtex_labels s (tables_take.1.1.1.1.1.1.1.0) h)

pub wefax-Takes : (s : Text) → is_label wefax_labels s ≡ true → Takes of_wefax s
wefax-Takes s h =
    takes_sound of_wefax s (λ e. omega arith) refl
      (all_take_sound 16 wefax_labels s (tables_take.1.1.1.1.1.1.1.1.0) h)

pub psk-Takes : (s : Text) → is_label psk_labels s ≡ true → Takes of_psk s
psk-Takes s h =
    takes_sound of_psk s (λ e. omega arith) refl
      (all_take_sound 18 psk_labels s (tables_take.1.1.1.1.1.1.1.1.1.0) h)

pub jt4-Takes : (s : Text) → is_label jt4_labels s ≡ true → Takes of_jt4 s
jt4-Takes s h =
    takes_sound of_jt4 s (λ e. omega arith) refl
      (all_take_sound 27 jt4_labels s (tables_take.1.1.1.1.1.1.1.1.1.1.0) h)

ifkp_listed : (s : Text) → is_ifkp s ≡ true → is_label (codes "ifkp-normal" ∷ ifkp_labels) s ≡ true
unfolding is_ifkp is_label
ifkp_listed s h = elim (Bool-cases (is_label ifkp_labels s)) [
  | inl listed ↦ ground (arith, listed)
  | inr alias ↦
      let e = text_eq_sound s (codes "ifkp-normal") (ground (arith, alias, h)) in
      rw e (unfold text_eq in refl)
]

pub ifkp-Takes : (s : Text) → is_ifkp s ≡ true → Takes of_ifkp s
ifkp-Takes s h =
    takes_sound of_ifkp s (λ e. omega arith) refl
      (all_take_sound 8 (codes "ifkp-normal" ∷ ifkp_labels) s (tables_take.1.1.1.1.1.1.1.1.1.1.1.0)
        (ifkp_listed s h))

fsq_listed : (s : Text) → is_fsq s ≡ true → is_label (codes "fsq" ∷ fsq_labels) s ≡ true
unfolding is_fsq is_label
fsq_listed s h = elim (Bool-cases (is_label fsq_labels s)) [
  | inl listed ↦ ground (arith, listed)
  | inr alias ↦
      let e = text_eq_sound s (codes "fsq") (ground (arith, alias, h)) in
      rw e (unfold text_eq in refl)
]

pub fsq-Takes : (s : Text) → is_fsq s ≡ true → Takes of_fsq s
fsq-Takes s h =
    takes_sound of_fsq s (λ e. omega arith) refl
      (all_take_sound 9 (codes "fsq" ∷ fsq_labels) s (tables_take.1.1.1.1.1.1.1.1.1.1.1.1.0)
        (fsq_listed s h))

-- The modes of one name, with the numbers of their arms.
abbrev names : List (ℕ × Text)
names =
    (1, codes "none")
    ∷ (2, codes "afsk1200")
    ∷ (3, codes "ft8")
    ∷ (4, codes "cw")
    ∷ (5, codes "rtty")
    ∷ (19, codes "ft4")
    ∷ (20, codes "jt65")
    ∷ (21, codes "jt9")
    ∷ (22, codes "wspr")
    ∷ (23, codes "fst4")
    ∷ (24, codes "js8")
    ∷ (25, codes "msk144")
    ∷ (26, codes "adsb")
    ∷ (28, codes "olivia")
    ∷ []

names_take : All (λ (n, s). takes n s ≡ true) names
unfolding lacks arm_of late_arm is_label is_ifkp is_fsq text_eq contestia_from_label strip_prefix
    split_once parse_uint parse_digits to_digit
names_take = (
  refl,
  (
    refl,
    (
      refl,
      (refl, (refl, (refl, (refl, (refl, (refl, (refl, (refl, (refl, (refl, (refl, tt))))))))))),
    ),
  ),
)

pub none-Takes : Takes of_none (codes "none")
none-Takes = takes_sound of_none (codes "none") (λ e. omega arith) refl (names_take.0)

pub afsk1200-Takes : Takes of_afsk1200 (codes "afsk1200")
afsk1200-Takes = takes_sound of_afsk1200 (codes "afsk1200") (λ e. omega arith) refl (names_take.1.0)

pub ft8-Takes : Takes of_ft8 (codes "ft8")
ft8-Takes = takes_sound of_ft8 (codes "ft8") (λ e. omega arith) refl (names_take.1.1.0)

pub cw-Takes : Takes of_cw (codes "cw")
cw-Takes = takes_sound of_cw (codes "cw") (λ e. omega arith) refl (names_take.1.1.1.0)

pub rtty-Takes : Takes of_rtty (codes "rtty")
rtty-Takes = takes_sound of_rtty (codes "rtty") (λ e. omega arith) refl (names_take.1.1.1.1.0)

pub ft4-Takes : Takes of_ft4 (codes "ft4")
ft4-Takes = takes_sound of_ft4 (codes "ft4") (λ e. omega arith) refl (names_take.1.1.1.1.1.0)

pub jt65-Takes : Takes of_jt65 (codes "jt65")
jt65-Takes = takes_sound of_jt65 (codes "jt65") (λ e. omega arith) refl (names_take.1.1.1.1.1.1.0)

pub jt9-Takes : Takes of_jt9 (codes "jt9")
jt9-Takes = takes_sound of_jt9 (codes "jt9") (λ e. omega arith) refl (names_take.1.1.1.1.1.1.1.0)

pub wspr-Takes : Takes of_wspr (codes "wspr")
wspr-Takes =
    takes_sound of_wspr (codes "wspr") (λ e. omega arith) refl (names_take.1.1.1.1.1.1.1.1.0)

pub fst4-Takes : Takes of_fst4 (codes "fst4")
fst4-Takes =
    takes_sound of_fst4 (codes "fst4") (λ e. omega arith) refl (names_take.1.1.1.1.1.1.1.1.1.0)

pub js8-Takes : Takes of_js8 (codes "js8")
js8-Takes =
    takes_sound of_js8 (codes "js8") (λ e. omega arith) refl (names_take.1.1.1.1.1.1.1.1.1.1.0)

pub msk144-Takes : Takes of_msk144 (codes "msk144")
msk144-Takes =
    takes_sound of_msk144 (codes "msk144") (λ e. omega arith) refl
      (names_take.1.1.1.1.1.1.1.1.1.1.1.0)

pub adsb-Takes : Takes of_adsb (codes "adsb")
adsb-Takes =
    takes_sound of_adsb (codes "adsb") (λ e. omega arith) refl
      (names_take.1.1.1.1.1.1.1.1.1.1.1.1.0)

pub olivia-Takes : Takes of_olivia (codes "olivia")
olivia-Takes =
    takes_sound of_olivia (codes "olivia") (λ e. omega arith) refl
      (names_take.1.1.1.1.1.1.1.1.1.1.1.1.1.0)
