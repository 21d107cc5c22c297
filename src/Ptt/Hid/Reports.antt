-- ===== src/Ptt/Hid/Reports.antt =====
-- The reports that a CM108 driver writes, from its making to the end of a transmission.
use omnimodem.Base.{
  ℕ, ◌≤◌, ◌≡◌, refl, sym, ap, ◌∙◌, Bool, true, false, ◌||◌, ◌⊎◌, inl, inr, List, [], ◌∷◌, ◌++◌,
  none, some, arith, ltb, append_assoc, Bool-cases,
}
use omnimodem.Ptt.Sequence.{PlaybackHandle, TxCycleOutcome, World, Burst, drive_tx_cycle}
use omnimodem.Ptt.Sequence.Cycle.{IsLong, keyed_once, drive_tx_cycle-keyed_once}
use omnimodem.Ptt.Hid.{Cm108Hid, Cm108Ptt, report, set_pin, cm108_driver, new_cm108}

-- A chip that takes every report: `taken` is the reports it has got.
pub record Takes {H : Type 0} (write_report : Cm108Hid H) (taken : H → List (List ℕ)) : Type 0 where
  pub no_error : (r : List ℕ) (h : H) → (write_report r h).0 ≡ none
  pub takes : (r : List ℕ) (h : H) → taken (write_report r h).1 ≡ taken h ++ (r ∷ [])

inr-inl : {A B : Type 0} {a : A} {b : B} → ◌≡◌ {A = A ⊎ B} (inr b) (inl a) → ⊥
inr-inl e = cc

same_driver : {A B : Type 0} {a b : A} → ◌≡◌ {A = A ⊎ B} (inl a) (inl b) → a ≡ b
same_driver e = cc

three :
    (l : List (List ℕ)) (a b c : List ℕ)
    → ((l ++ (a ∷ [])) ++ (b ∷ [])) ++ (c ∷ []) ≡ l ++ (a ∷ b ∷ c ∷ [])
three l a b c =
    append_assoc (l ++ (a ∷ [])) (b ∷ []) (c ∷ []) ∙ append_assoc l (a ∷ []) (b ∷ c ∷ [])

in_range : (pin : ℕ) → (ltb pin 1 || ltb 8 pin) ≡ false → (1 ≤ pin) × (pin ≤ 8)
in_range pin h = (ground (arith, h), ground (arith, h))

module _ {H : Type 0} (write_report : Cm108Hid H) (taken : H → List (List ℕ))
    (works : Takes write_report taken) where
  after_once :
      (d : Cm108Ptt H)
      → keyed_once (cm108_driver write_report) d ≡ record d {
        hid =
            (write_report
              (report d.pin d.invert false)
              (write_report (report d.pin d.invert true) d.hid).1).1;
      }
  unfolding keyed_once set_pin
  after_once d = rw (works.no_error (report d.pin d.invert true) d.hid, keyed_once) refl

  -- A driver is made for the pins 1 to 8 only, and over a chip that takes every report its making
  -- and a transmission behind it write exactly three: one that releases the pin, one that asserts
  -- it and one that releases it again; the clock is to reach each loop's deadline.
  pub cm108_cycle-reports :
      (pin : ℕ) (invert : Bool) (hid after : H) (d : Cm108Ptt H) (w : World) (b : Burst)
      (sink : PlaybackHandle)
      → IsLong w b
      → new_cm108 write_report hid pin invert ≡ (inl d, after)
      → (1 ≤ pin)
        × (pin ≤ 8)
        × (o : TxCycleOutcome) × (t : Cm108Ptt H) × (k : PlaybackHandle) × (drive_tx_cycle
              (cm108_driver write_report)
              w
              b
              d
              sink
            ≡ some (o, (t, k)))
        × (taken t.hid
            ≡ taken hid
              ++ (report pin invert false ∷ report pin invert true ∷ report pin invert false ∷ []))
  unfolding new_cm108 set_pin
  cm108_cycle-reports pin invert hid after d w b sink long made =
      elim (Bool-cases (ltb pin 1 || ltb 8 pin)) [
        | inl outside ↦ absurd (inr-inl (ap (λ r. r.0) (rw (outside, new_cm108) at made)))
        | inr inside ↦
            let first : H = (write_report (report pin invert false) hid).1 in
            let fresh : Cm108Ptt H = record { hid = first; pin = pin; invert = invert } in
            let e : fresh ≡ d = same_driver (
              ap (λ r. r.0)
                (rw (inside, new_cm108, works.no_error (report pin invert false) hid) at made)) in
            let (o, k, cycle) =
              drive_tx_cycle-keyed_once (cm108_driver write_report) w b d sink long in
            let (low, high) = in_range pin inside in
            (
              low,
              high,
              o,
              keyed_once (cm108_driver write_report) d,
              k,
              cycle,
              ap (λ x. taken (keyed_once (cm108_driver write_report) x).hid) (sym e)
                  ∙ ap (λ x. taken x.hid) (after_once fresh)
                  ∙ works.takes (report pin invert false) _
                  ∙ ap (λ l. l ++ (report pin invert false ∷ []))
                      (works.takes (report pin invert true) first
                        ∙ ap (λ l. l ++ (report pin invert true ∷ []))
                            (works.takes (report pin invert false) hid))
                  ∙ three (taken hid) (report pin invert false) (report pin invert true)
                      (report pin invert false),
            )
      ]
