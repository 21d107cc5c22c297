-- ===== src/Mode/Config/RoundTrip.antt =====
-- A mode configuration, through its text and the parser.
use omnimodem.Base.{◌<◌, ◌^◌, ◌≡◌, refl, ◌∙◌, sym, ap, true, some, if◌then◌else◌}
use omnimodem.Base.Text.{codes, text_eq}
use omnimodem.Mode.Labels.{
  is_label, dominoex_labels, thor_labels, is_ifkp, is_fsq, hell_labels, sstv_labels, throb_labels,
  mfsk_labels, mt63_labels, navtex_labels, wefax_labels, contestia_grid, in_grid, contestia_label,
  psk_labels, jt4_labels,
}
use omnimodem.Mode.Config.{
  Floats, ModeConfig, no_mode, afsk1200, ft8, cw, rtty, psk, dominoex, thor, ifkp, fsq, hell, sstv,
  throb, ft4, jt65, jt9, wspr, mfsk, contestia, mt63, navtex, wefax, olivia, fst4, js8, jt4, msk144,
  adsb, of_none, of_afsk1200, of_ft8, of_dominoex, of_thor, of_ifkp, of_hell, of_sstv, of_throb,
  of_mfsk, of_mt63, of_navtex, of_wefax, of_contestia, of_psk, of_ft4, of_jt65, of_jt9, of_wspr,
  of_adsb, of_jt4, js8_submodes, build, parse,
}
use omnimodem.Mode.Config.Params.{IsValue}
use omnimodem.Mode.Config.Arms.Grid.{contestia-Takes}
use omnimodem.Mode.Config.Arms.Tables.{
  none-Takes, afsk1200-Takes, ft8-Takes, ft4-Takes, jt65-Takes, jt9-Takes, wspr-Takes, adsb-Takes,
  dominoex-Takes, thor-Takes, ifkp-Takes, hell-Takes, sstv-Takes, throb-Takes, mfsk-Takes,
  mt63-Takes, navtex-Takes, wefax-Takes, psk-Takes, jt4-Takes,
}
use omnimodem.Mode.Config.Back.{
  FloatLaws, parse_bare, centered, cw_back, rtty_back, fsq_back, olivia_back, fst4_back,
  msk144_back, js8_back,
}
use omnimodem.Mode.Print.{to_mode_string, label}

-- What the texts and numbers of a configuration are to be: the labels of the source, `u16`
-- numbers, and a callsign without commas or outer blanks. AFSK has its transmitter on.
abbrev pub IsConfig : {F : Type 0} → ModeConfig F → Type 0
IsConfig (afsk1200 tx) = tx ≡ true
IsConfig (cw wpm tone_hz) = wpm < 2 ^ 16
IsConfig (psk submode center_hz) = is_label psk_labels submode ≡ true
IsConfig (dominoex submode center_hz) = is_label dominoex_labels submode ≡ true
IsConfig (thor submode center_hz) = is_label thor_labels submode ≡ true
IsConfig (ifkp speed center_hz) = is_ifkp speed ≡ true
IsConfig (fsq speed center_hz mycall directed) = (is_fsq speed ≡ true) × IsValue mycall
IsConfig (hell submode center_hz) = is_label hell_labels submode ≡ true
IsConfig (sstv submode) = is_label sstv_labels submode ≡ true
IsConfig (throb submode center_hz) = is_label throb_labels submode ≡ true
IsConfig (mfsk submode center_hz) = is_label mfsk_labels submode ≡ true
IsConfig (contestia tones bandwidth_hz) = in_grid contestia_grid tones bandwidth_hz ≡ true
IsConfig (mt63 submode center_hz) = is_label mt63_labels submode ≡ true
IsConfig (navtex submode center_hz) = is_label navtex_labels submode ≡ true
IsConfig (wefax submode center_hz) = is_label wefax_labels submode ≡ true
IsConfig (olivia tones bandwidth_hz) = (tones < 2 ^ 16) × (bandwidth_hz < 2 ^ 16)
IsConfig (fst4 tr_s) = tr_s < 2 ^ 16
IsConfig (js8 submode) = is_label js8_submodes submode ≡ true
IsConfig (jt4 submode) = is_label jt4_labels submode ≡ true
IsConfig _ = Unit {0}

module _ (fl : Floats) (laws : FloatLaws fl) where
  -- A configuration is read back from its text, when its labels are those of the source, its
  -- whole numbers fit in 16 bits, its callsign has no comma and no outer blanks, and its AFSK has
  -- the transmitter on; and when each float is read back from what it is written as, which has no
  -- comma and no outer blanks either.
  pub parse-to_mode_string :
      (m : ModeConfig fl.F) → IsConfig m → parse fl (to_mode_string fl m) ≡ some m
  unfolding to_mode_string label build
  parse-to_mode_string no_mode h = parse_bare fl laws (codes "none") of_none none-Takes
  parse-to_mode_string (afsk1200 tx) h =
      parse_bare fl laws (codes "afsk1200") of_afsk1200 afsk1200-Takes
      ∙ ap (λ b. some (afsk1200 b)) (sym h)
  parse-to_mode_string ft8 h = parse_bare fl laws (codes "ft8") of_ft8 ft8-Takes
  parse-to_mode_string (cw wpm tone_hz) h = cw_back fl laws wpm tone_hz h
  parse-to_mode_string (rtty baud shift_hz center_hz reverse) h =
      rtty_back fl laws baud shift_hz center_hz reverse
  parse-to_mode_string (psk s c) h =
      centered fl laws s c
        (fl.literal (if text_eq s (codes "psk31") then codes "1000.0" else codes "1500.0")) of_psk
        (psk s) (psk-Takes s h) refl
  parse-to_mode_string (dominoex s c) h =
      centered fl laws s c (fl.literal (codes "1500.0")) of_dominoex (dominoex s)
        (dominoex-Takes s h) refl
  parse-to_mode_string (thor s c) h =
      centered fl laws s c (fl.literal (codes "1500.0")) of_thor (thor s) (thor-Takes s h) refl
  parse-to_mode_string (ifkp s c) h =
      centered fl laws s c (fl.literal (codes "1500.0")) of_ifkp (ifkp s) (ifkp-Takes s h) refl
  parse-to_mode_string (fsq speed c mycall directed) (h, value) =
      fsq_back fl laws speed c mycall directed h value
  parse-to_mode_string (hell s c) h =
      centered fl laws s c (fl.literal (codes "1500.0")) of_hell (hell s) (hell-Takes s h) refl
  parse-to_mode_string (sstv s) h = parse_bare fl laws s of_sstv (sstv-Takes s h)
  parse-to_mode_string (throb s c) h =
      centered fl laws s c (fl.literal (codes "1500.0")) of_throb (throb s) (throb-Takes s h) refl
  parse-to_mode_string ft4 h = parse_bare fl laws (codes "ft4") of_ft4 ft4-Takes
  parse-to_mode_string jt65 h = parse_bare fl laws (codes "jt65") of_jt65 jt65-Takes
  parse-to_mode_string jt9 h = parse_bare fl laws (codes "jt9") of_jt9 jt9-Takes
  parse-to_mode_string wspr h = parse_bare fl laws (codes "wspr") of_wspr wspr-Takes
  parse-to_mode_string (mfsk s c) h =
      centered fl laws s c (fl.literal (codes "1500.0")) of_mfsk (mfsk s) (mfsk-Takes s h) refl
  parse-to_mode_string (contestia t b) h =
      parse_bare fl laws (contestia_label t b) (of_contestia t b) (contestia-Takes t b h)
  parse-to_mode_string (mt63 s c) h =
      centered fl laws s c (fl.literal (codes "1500.0")) of_mt63 (mt63 s) (mt63-Takes s h) refl
  parse-to_mode_string (navtex s c) h =
      centered fl laws s c (fl.literal (codes "1000.0")) of_navtex (navtex s) (navtex-Takes s h)
        refl
  parse-to_mode_string (wefax s c) h =
      centered fl laws s c (fl.literal (codes "1900.0")) of_wefax (wefax s) (wefax-Takes s h) refl
  parse-to_mode_string (olivia t b) (ht, hb) = olivia_back fl laws t b ht hb
  parse-to_mode_string (fst4 tr_s) h = fst4_back fl laws tr_s h
  parse-to_mode_string (js8 s) h = js8_back fl laws s h
  parse-to_mode_string (jt4 s) h = parse_bare fl laws s of_jt4 (jt4-Takes s h)
  parse-to_mode_string (msk144 f) h = msk144_back fl laws f
  parse-to_mode_string adsb h = parse_bare fl laws (codes "adsb") of_adsb adsb-Takes
