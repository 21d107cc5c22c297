-- ===== src/Ptt/Serial/Tests.antt =====
-- A transmission over two wires, without hardware behind them.
use omnimodem.Base.{◌≡◌, refl, Bool, true, false, [], ◌∷◌, some, none}
use omnimodem.Ptt.Serial.{
  SerialLine, rts, dtr, ModemControlLines, SerialLinePtt, write, serial_driver, set_line,
  new_serial,
}
use omnimodem.Ptt.Serial.Cycle.{Works, serial_cycle-released}
use omnimodem.Ptt.Sequence.{
  PlaybackHandle, TxCycleOutcome, Look, World, Burst, expected_airtime, drive_tx_cycle,
}
use omnimodem.Ptt.Sequence.Cycle.{IsLong, reaches, polls_reach}

-- The levels of the two lines.
abbrev wires : ModemControlLines (Bool × Bool)
wires = record { write_rts = λ b h. (none, (b, h.1)); write_dtr = λ b h. (none, (h.0, b)) }

abbrev level : SerialLine → Bool × Bool → Bool
level rts h = h.0
level dtr h = h.1

wires-Works : Works wires level
wires-Works = record {
  no_error = no_error;
  sets = sets;
  keeps_dtr = λ b h. refl;
  keeps_rts = λ b h. refl;
}
  where
    no_error : (l : SerialLine) (b : Bool) (h : Bool × Bool) → (write wires l b h).0 ≡ none
    no_error rts b h = refl
    no_error dtr b h = refl

    sets : (l : SerialLine) (b : Bool) (h : Bool × Bool) → level l (write wires l b h).1 ≡ b
    sets rts b h = refl
    sets dtr b h = refl

-- The port opens with both lines high; the driver is on the RTS line.
abbrev port : SerialLinePtt (Bool × Bool)
port = record { lines = (true, true); line = rts; invert = false }

open_unkeyed : (new_serial wires (true, true) rts false).1 ≡ record port { lines = (false, true) }
unfolding new_serial set_line
open_unkeyed = refl

abbrev burst : Burst
burst = record { samples = []; sample_rate = 48000; tx_delay = 5; tx_tail = 5 }

abbrev look : Look
look = record { cancelled = false; now = 5 }

abbrev world : World
world = record {
  lead_entry = record { cancelled = false; now = 0 };
  lead_looks = look ∷ [];
  start = 6;
  polls = record { cancelled = false; drained = 0; elapsed = 0; now = 500000006 } ∷ [];
  tail_entry = record { cancelled = false; now = 0 };
  tail_looks = look ∷ [];
}

world-IsLong : IsLong world burst
unfolding reaches polls_reach expected_airtime
world-IsLong = record { lead = refl; air = refl; tail = refl }

abbrev sink : PlaybackHandle
sink = record { queued = []; submitted = 0; drained = 0; closed = none }

serial_cycle-released_example :
    (o : TxCycleOutcome) × (t : SerialLinePtt (Bool × Bool)) × (k : PlaybackHandle)
    × (drive_tx_cycle (serial_driver wires) world burst port sink ≡ some (o, (t, k)))
    × (level rts t.lines ≡ false)
    × (level dtr t.lines ≡ true)
serial_cycle-released_example =
    serial_cycle-released wires level wires-Works world burst port sink world-IsLong
