-- ===== src/Ptt/Hid/Tests.antt =====
-- A CM108 pin whose chip records its reports, and a GPIO line.
use omnimodem.Base.{ℕ, ◌≤◌, ◌≡◌, refl, true, false, inl, inr, List, [], ◌∷◌, ◌++◌, none, some}
use omnimodem.Base.Text.{codes, decimal, decimal_before}
use omnimodem.Ptt.Driver.{config}
use omnimodem.Ptt.Sequence.{
  PlaybackHandle, TxCycleOutcome, Look, World, Burst, expected_airtime, drive_tx_cycle,
}
use omnimodem.Ptt.Sequence.Cycle.{IsLong, reaches, polls_reach}
use omnimodem.Ptt.Hid.{
  Cm108Hid, Cm108Ptt, pin_mask, report, set_pin, cm108_driver, new_cm108, set_gpio, new_gpio,
}
use omnimodem.Ptt.Hid.Reports.{Takes, cm108_cycle-reports}

abbrev recorder : Cm108Hid (List (List ℕ))
recorder r h = (none, h ++ (r ∷ []))

recorder-Takes : Takes recorder (λ h. h)
recorder-Takes = record { no_error = λ r h. refl; takes = λ r h. refl }

abbrev third_pin : Cm108Ptt (List (List ℕ))
third_pin = record { hid = report 3 false false ∷ []; pin = 3; invert = false }

made : new_cm108 recorder [] 3 false ≡ (inl third_pin, report 3 false false ∷ [])
unfolding new_cm108 set_pin
made = refl

refused :
    (new_cm108 recorder [] 9 false) ≡ (inr (config (codes "cm108 pin 9 out of range 1..=8")), [])
unfolding new_cm108 decimal decimal_before
refused = refl

asserted : report 3 false true ≡ 0 ∷ 0 ∷ 4 ∷ 4 ∷ 0 ∷ []
unfolding report pin_mask
asserted = refl

-- An inverted line is released high.
inverted_gpio : (new_gpio (λ level h. (none, level)) false true).1 ≡ true
unfolding new_gpio set_gpio
inverted_gpio = refl

abbrev burst : Burst
burst = record { samples = []; sample_rate = 48000; tx_delay = 5; tx_tail = 5 }

abbrev look : Look
look = record { cancelled = false; now = 5 }

abbrev world : World
world = record {
  lead_entry = record { cancelled = false; now = 0 };
  lead_looks = look ∷ [];
  start = 6;
  polls = record { cancelled = false; drained = 0; elapsed = 0; now = 500000006 } ∷ [];
  tail_entry = record { cancelled = false; now = 0 };
  tail_looks = look ∷ [];
}

abbrev sink : PlaybackHandle
sink = record { queued = []; submitted = 0; drained = 0; closed = none }

world-IsLong : IsLong world burst
unfolding reaches polls_reach expected_airtime
world-IsLong = record { lead = refl; air = refl; tail = refl }

cm108_cycle-reports_example :
    (1 ≤ 3)
    × (3 ≤ 8)
    × (o : TxCycleOutcome) × (t : Cm108Ptt (List (List ℕ))) × (k : PlaybackHandle) × (drive_tx_cycle
          (cm108_driver recorder)
          world
          burst
          third_pin
          sink
        ≡ some (o, (t, k)))
    × (t.hid ≡ report 3 false false ∷ report 3 false true ∷ report 3 false false ∷ [])
cm108_cycle-reports_example =
    cm108_cycle-reports recorder (λ h. h) recorder-Takes 3 false [] (report 3 false false ∷ [])
      third_pin world burst sink world-IsLong made
