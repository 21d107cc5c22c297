-- ===== src/Ptt/Serial.antt =====
-- The driver on a serial port's control lines, crates/omnimodem/src/ptt/serial.rs. The port itself
-- is a parameter: the two writes over a state of the hardware.
mod Cycle
mod Tests
use omnimodem.Base.{Bool, true, false, not, Option, none, some, if◌then◌else◌}
use omnimodem.Ptt.Driver.{PttError, PttDriver}

pub data SerialLine : Type 0 where
  rts : SerialLine
  dtr : SerialLine

pub record ModemControlLines (H : Type 0) : Type 0 where
  pub write_rts : Bool → H → Option PttError × H
  pub write_dtr : Bool → H → Option PttError × H

pub record SerialLinePtt (H : Type 0) : Type 0 where
  pub lines : H
  pub line : SerialLine
  pub invert : Bool

module _ {H : Type 0} (port : ModemControlLines H) where
  abbrev pub write : SerialLine → Bool → H → Option PttError × H
  write rts level h = port.write_rts level h
  write dtr level h = port.write_dtr level h

  -- The level is `asserted ^ invert`.
  unfoldable pub set_line : Bool → SerialLinePtt H → Option PttError × SerialLinePtt H
  set_line asserted s =
      let level = if asserted then not s.invert else s.invert in
      let r = write s.line level s.lines in (r.0, record s { lines = r.1 })

  abbrev pub serial_driver : PttDriver (SerialLinePtt H)
  serial_driver = record { key = set_line true; unkey = set_line false }

  unfoldable pub drop_serial : SerialLinePtt H → SerialLinePtt H
  drop_serial s = (set_line false s).1

  -- The first unkey; on its error, which is returned, the driver is dropped.
  unfoldable pub new_serial : H → SerialLine → Bool → Option PttError × SerialLinePtt H
  new_serial lines line invert =
      let r = set_line false (record { lines = lines; line = line; invert = invert }) in
      elim (r.0) [ none ↦ r | some e ↦ (some e, drop_serial r.1) ]
