-- ===== src/Ptt/Hid.antt =====
-- The drivers on a CM108 sound chip's pin and on a GPIO line, crates/omnimodem/src/ptt/cm108.rs and
-- ptt/gpio.rs. The hardware is an argument: what it writes, over a state of it.
mod Reports
mod Tests
use omnimodem.Base.{
  ℕ, ◌+◌, ◌-◌, ◌%◌, ◌^◌, Bool, true, false, not, ◌||◌, ◌⊎◌, inl, inr, List, [], ◌∷◌, ◌++◌, Option,
  none, some, ltb, if◌then◌else◌,
}
use omnimodem.Base.Text.{Text, codes, decimal}
use omnimodem.Ptt.Driver.{PttError, config, PttDriver}

abbrev pub Cm108Hid : Type 0 → Type 0
Cm108Hid H = List ℕ → H → Option PttError × H

pub record Cm108Ptt (H : Type 0) : Type 0 where
  pub hid : H
  pub pin : ℕ
  pub invert : Bool

-- `1u8 << (pin - 1)`
unfoldable pub pin_mask : ℕ → ℕ
pin_mask pin = 2 ^ (pin - 1) % 2 ^ 8

-- The report that asserts or releases a pin; the level is `asserted ^ invert`.
unfoldable pub report : ℕ → Bool → Bool → List ℕ
report pin invert asserted =
    let level = if asserted then not invert else invert in
    0 ∷ 0 ∷ (if level then pin_mask pin else 0) ∷ pin_mask pin ∷ 0 ∷ []

pub record GpioPtt (L : Type 0) : Type 0 where
  pub line : L
  pub invert : Bool

module _ {H : Type 0} (write_report : Cm108Hid H) where
  unfoldable pub set_pin : Bool → Cm108Ptt H → Option PttError × Cm108Ptt H
  set_pin asserted d =
      let r = write_report (report d.pin d.invert asserted) d.hid in (r.0, record d { hid = r.1 })

  abbrev pub cm108_driver : PttDriver (Cm108Ptt H)
  cm108_driver = record { key = set_pin true; unkey = set_pin false }

  unfoldable pub drop_cm108 : Cm108Ptt H → H
  drop_cm108 d = (set_pin false d).1.hid

  -- A pin out of range is refused before anything is written; a driver that cannot unkey is dropped.
  unfoldable pub new_cm108 : H → ℕ → Bool → (Cm108Ptt H ⊎ PttError) × H
  new_cm108 hid pin invert =
      if ltb pin 1 || ltb 8 pin
      then (inr (config (codes "cm108 pin " ++ (decimal pin ++ codes " out of range 1..=8"))), hid)
      else let r = set_pin false record { hid = hid; pin = pin; invert = invert } in
        elim (r.0) [ none ↦ (inl r.1, r.1.hid) | some e ↦ (inr e, drop_cm108 r.1) ]

module _ {L : Type 0} (set_active : Bool → L → Option PttError × L) where
  unfoldable pub set_gpio : Bool → GpioPtt L → Option PttError × GpioPtt L
  set_gpio asserted d =
      let r = set_active (if asserted then not d.invert else d.invert) d.line in
      (r.0, record d { line = r.1 })

  abbrev pub gpio_driver : PttDriver (GpioPtt L)
  gpio_driver = record { key = set_gpio true; unkey = set_gpio false }

  unfoldable pub drop_gpio : GpioPtt L → L
  drop_gpio d = (set_gpio false d).1.line

  unfoldable pub new_gpio : L → Bool → (GpioPtt L ⊎ PttError) × L
  new_gpio line invert =
      let r = set_gpio false record { line = line; invert = invert } in
      elim (r.0) [ none ↦ (inl r.1, r.1.line) | some e ↦ (inr e, drop_gpio r.1) ]
