-- ===== src/Mode/Print.antt =====
-- The label and the text of a `ModeConfig`, crates/omnimodem/src/mode/mod.rs.
use omnimodem.Base.{List, ◌++◌, if◌then◌else◌}
use omnimodem.Base.Text.{Text, codes, decimal}
use omnimodem.Mode.Labels.{
  is_label, dominoex_labels, thor_labels, is_ifkp, ifkp_label, is_fsq, fsq_label, hell_labels,
  sstv_labels, throb_labels, mfsk_labels, mt63_labels, navtex_labels, wefax_labels, contestia_label,
  psk_labels, jt4_labels,
}
use omnimodem.Mode.Config.{
  Floats, ModeConfig, no_mode, afsk1200, ft8, cw, rtty, psk, dominoex, thor, ifkp, fsq, hell, sstv,
  throb, ft4, jt65, jt9, wspr, mfsk, contestia, mt63, navtex, wefax, olivia, fst4, js8, jt4, msk144,
  adsb, show_bool,
}

-- The label of a variant, or what stands in for it.
abbrev pub label_or : List Text → Text → Text → Text
label_or labels other s = if is_label labels s then s else other

-- `ModeConfig::label`
unfoldable pub label : {F : Type 0} → ModeConfig F → Text
label no_mode = codes "none"
label (afsk1200 tx) = codes "afsk1200"
label ft8 = codes "ft8"
label (cw wpm tone_hz) = codes "cw"
label (rtty baud shift_hz center_hz reverse) = codes "rtty"
label (psk submode center_hz) = label_or psk_labels (codes "psk") submode
label (dominoex submode center_hz) = label_or dominoex_labels (codes "dominoex") submode
label (thor submode center_hz) = label_or thor_labels (codes "thor") submode
label (ifkp speed center_hz) = if is_ifkp speed then ifkp_label speed else codes "ifkp"
label (fsq speed center_hz mycall directed) = if is_fsq speed then fsq_label speed else codes "fsq"
label (hell submode center_hz) = label_or hell_labels (codes "hell") submode
label (sstv submode) = label_or sstv_labels (codes "sstv") submode
label (throb submode center_hz) = label_or throb_labels (codes "throb") submode
label (mfsk submode center_hz) = label_or mfsk_labels (codes "mfsk") submode
label (mt63 submode center_hz) = label_or mt63_labels (codes "mt63") submode
label (navtex submode center_hz) = label_or navtex_labels (codes "navtex") submode
label (wefax submode center_hz) = label_or wefax_labels (codes "wefax") submode
label (contestia tones bandwidth_hz) = codes "contestia"
label ft4 = codes "ft4"
label jt65 = codes "jt65"
label jt9 = codes "jt9"
label wspr = codes "wspr"
label (fst4 tr_s) = codes "fst4"
label (js8 submode) = codes "js8"
label (jt4 submode) = label_or jt4_labels (codes "jt4a") submode
label (msk144 freq_hz) = codes "msk144"
label (olivia tones bandwidth_hz) = codes "olivia"
label adsb = codes "adsb"

module _ (fl : Floats) where
  abbrev pub at_center : Text → fl.F → Text
  at_center name center_hz = name ++ (codes ":center=" ++ fl.show center_hz)

  unfoldable pub to_mode_string : ModeConfig fl.F → Text
  to_mode_string (cw wpm tone_hz) =
      codes "cw:wpm=" ++ (decimal wpm ++ (codes ",tone=" ++ fl.show tone_hz))
  to_mode_string (rtty baud shift_hz center_hz reverse) =
      codes "rtty:baud="
      ++ (fl.show baud
          ++ (codes ",shift="
              ++ (fl.show shift_hz
                  ++ (codes ",center="
                      ++ (fl.show center_hz ++ (codes ",reverse=" ++ show_bool reverse))))))
  to_mode_string (psk submode center_hz) = at_center submode center_hz
  to_mode_string (dominoex submode center_hz) = at_center submode center_hz
  to_mode_string (thor submode center_hz) = at_center submode center_hz
  to_mode_string (ifkp speed center_hz) = at_center speed center_hz
  to_mode_string (fsq speed center_hz mycall directed) =
      speed
      ++ (codes ":center="
          ++ (fl.show center_hz
              ++ (codes ",mycall=" ++ (mycall ++ (codes ",directed=" ++ show_bool directed)))))
  to_mode_string (hell submode center_hz) = at_center submode center_hz
  to_mode_string (sstv submode) = submode
  to_mode_string (throb submode center_hz) = at_center submode center_hz
  to_mode_string (mfsk submode center_hz) = at_center submode center_hz
  to_mode_string (mt63 submode center_hz) = at_center submode center_hz
  to_mode_string (navtex submode center_hz) = at_center submode center_hz
  to_mode_string (wefax submode center_hz) = at_center submode center_hz
  to_mode_string (contestia tones bandwidth_hz) = contestia_label tones bandwidth_hz
  to_mode_string (fst4 tr_s) = codes "fst4:tr=" ++ decimal tr_s
  to_mode_string (js8 submode) = codes "js8:sub=" ++ submode
  to_mode_string (jt4 submode) = submode
  to_mode_string (msk144 freq_hz) = codes "msk144:freq=" ++ fl.show freq_hz
  to_mode_string (olivia tones bandwidth_hz) =
      codes "olivia:tones=" ++ (decimal tones ++ (codes ",bw=" ++ decimal bandwidth_hz))
  to_mode_string other = label other
