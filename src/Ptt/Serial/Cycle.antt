-- ===== src/Ptt/Serial/Cycle.antt =====
-- A whole transmission through a serial port.
use omnimodem.Base.{◌≡◌, refl, ◌∙◌, ap, Bool, not, none, some}
use omnimodem.Ptt.Serial.{
  SerialLine, rts, dtr, ModemControlLines, SerialLinePtt, write, set_line, serial_driver,
}
use omnimodem.Ptt.Sequence.{PlaybackHandle, TxCycleOutcome, World, Burst, drive_tx_cycle}
use omnimodem.Ptt.Sequence.Cycle.{IsLong, keyed_once, drive_tx_cycle-keyed_once}

-- A port that works: `level` reads a line, no write fails, and a write sets its own line only.
pub record Works {H : Type 0} (port : ModemControlLines H) (level : SerialLine → H → Bool)
    : Type 0 where
  pub no_error : (l : SerialLine) (b : Bool) (h : H) → (write port l b h).0 ≡ none
  pub sets : (l : SerialLine) (b : Bool) (h : H) → level l (write port l b h).1 ≡ b
  pub keeps_dtr : (b : Bool) (h : H) → level dtr (write port rts b h).1 ≡ level dtr h
  pub keeps_rts : (b : Bool) (h : H) → level rts (write port dtr b h).1 ≡ level rts h

abbrev pub other : SerialLine → SerialLine
other rts = dtr
other dtr = rts

module _ {H : Type 0} (port : ModemControlLines H) (level : SerialLine → H → Bool)
    (works : Works port level) where
  keeps_other :
      (l : SerialLine) (b : Bool) (h : H) → level (other l) (write port l b h).1 ≡ level (other l) h
  keeps_other rts b h = works.keeps_dtr b h
  keeps_other dtr b h = works.keeps_rts b h

  after_once :
      (s : SerialLinePtt H)
      → keyed_once (serial_driver port) s ≡ record s {
        lines = (write port s.line s.invert (write port s.line (not s.invert) s.lines).1).1;
      }
  unfolding keyed_once set_line
  after_once s = rw (works.no_error s.line (not s.invert) s.lines, keyed_once) refl

  -- Over a port that works, a transmission returns with the chosen line at its released level,
  -- which is high only if the line is inverted, and with the other line as it was; the clock is
  -- to reach each loop's deadline.
  pub serial_cycle-released :
      (w : World) (b : Burst) (s : SerialLinePtt H) (sink : PlaybackHandle)
      → IsLong w b
      → (o : TxCycleOutcome) × (t : SerialLinePtt H) × (k : PlaybackHandle) × (drive_tx_cycle
            (serial_driver port)
            w
            b
            s
            sink
          ≡ some (o, (t, k)))
        × (level s.line t.lines ≡ s.invert)
        × (level (other s.line) t.lines ≡ level (other s.line) s.lines)
  serial_cycle-released w b s sink long =
      let (o, k, e) = drive_tx_cycle-keyed_once (serial_driver port) w b s sink long in
      let keyed = (write port s.line (not s.invert) s.lines).1 in
      (
        o,
        keyed_once (serial_driver port) s,
        k,
        e,
        ap (λ t. level s.line t.lines) (after_once s) ∙ works.sets s.line s.invert keyed,
        ap (λ t. level (other s.line) t.lines) (after_once s)
            ∙ keeps_other s.line s.invert keyed
            ∙ keeps_other s.line (not s.invert) s.lines,
      )
