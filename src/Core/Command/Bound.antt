-- ===== src/Core/Command/Bound.antt =====
-- The commands that bind a channel, and the devices of the workers.
use mathlib.Core.Logic.{ite}
use omnimodem.Base.{
  ℕ, ◌≡◌, ◌==◌, refl, sym, ◌∙◌, Bool, true, false, ◌⊎◌, inl, inr, some, if◌then◌else◌, both_true,
  Bool-cases, Option-cases, Sum-cases,
}
use omnimodem.Ids.{DeviceId, DeviceId-discrete, is_sdr}
use omnimodem.Ptt.Sequence.{PlaybackHandle}
use omnimodem.Core.Error.{
  AudioError, device_not_found, no_usable_format, rate_too_high, usb_claim, usb, usb_lost,
  unsupported_sample_rate, unsupported_tuner, tuner_freq_range, Result, Result-cases,
}
use omnimodem.Core.Live.{Parts, Mode, AudioBinding, LiveBindings, Core, Host}
use omnimodem.Core.Audio.{
  at, rx_running, same_binding, reuse_rx, couple_control, open_rx, bind_rx, open_tx, opened_tx,
  has_channel, mode_of, find_device,
}
use omnimodem.Device.{refresh}
use omnimodem.Supervisor.{Supervisor, max_sample_rate}
use omnimodem.Supervisor
use omnimodem.Core.Configure.{bound, rebind_tx, rebind_with, rebind, configure_audio}
use omnimodem.Core.Command.Rigs.{FitsRx, Rigs, rebound, rebound_fresh}

module _ (p : Parts) where
  -- The four maps are as they were.
  abbrev pub Same : LiveBindings p → LiveBindings p → Type 0
  Same live live1 =
      (live1.rx_workers ≡ live.rx_workers)
      × (live1.tx_workers ≡ live.tx_workers)
      × (live1.audio ≡ live.audio)
      × (live1.drivers ≡ live.drivers)

  couple-Same :
      (id : ℕ) (dev : DeviceId) (mode : Mode p) (live : LiveBindings p)
      → Same live (couple_control p id dev mode live)
  unfolding couple_control
  couple-Same id dev mode live = elim (Bool-cases (is_sdr dev)) [
    | inl sdr ↦ rw (sdr, couple_control) (refl, refl, refl, refl)
    | inr other ↦ rw (other, couple_control) (refl, refl, refl, refl)
  ]

  pub open_rx-Same :
      (h : Host p) (id : ℕ) (dev : DeviceId) (rate : ℕ) (mode : Mode p) (c : Core p)
      → Same c.live (open_rx p h id dev rate mode c).1.live
  unfolding open_rx
  open_rx-Same h id dev rate mode c = elim (Sum-cases (find_device dev c.cache)) [
    | inr (e, missing) ↦ rw (missing, open_rx) (refl, refl, refl, refl)
    | inl (desc, found) ↦ elim (Sum-cases (h.open_capture desc rate)) [
      | inr (e, failed) ↦ rw (found, open_rx, failed) (couple-Same id dev mode c.live)
      | inl ((capture, got), opened) ↦ rw (found, open_rx, opened) (couple-Same id dev mode c.live)
    ]
  ]

  opened_tx-Same :
      (id : ℕ) (r : (PlaybackHandle × ℕ) ⊎ AudioError) (c : Core p)
      → Same c.live (opened_tx p id r c).1.live
  unfolding opened_tx
  opened_tx-Same id (inl (sink, rate)) c = (refl, refl, refl, refl)
  opened_tx-Same id (inr (device_not_found d)) c = (refl, refl, refl, refl)
  opened_tx-Same id (inr (no_usable_format d)) c = (refl, refl, refl, refl)
  opened_tx-Same id (inr (rate_too_high r m)) c = (refl, refl, refl, refl)
  opened_tx-Same id (inr (AudioError.io e)) c = (refl, refl, refl, refl)
  opened_tx-Same id (inr AudioError.unsupported) c = (refl, refl, refl, refl)
  opened_tx-Same id (inr (usb_claim d e)) c = (refl, refl, refl, refl)
  opened_tx-Same id (inr (usb e)) c = (refl, refl, refl, refl)
  opened_tx-Same id (inr (usb_lost e)) c = (refl, refl, refl, refl)
  opened_tx-Same id (inr (unsupported_sample_rate r)) c = (refl, refl, refl, refl)
  opened_tx-Same id (inr unsupported_tuner) c = (refl, refl, refl, refl)
  opened_tx-Same id (inr (tuner_freq_range f)) c = (refl, refl, refl, refl)

  pub open_tx-Same :
      (h : Host p) (id : ℕ) (dev : DeviceId) (rate : ℕ) (c : Core p)
      → Same c.live (open_tx p h id dev rate c).1.live
  unfolding open_tx
  open_tx-Same h id dev rate c = elim (Sum-cases (find_device dev c.cache)) [
    | inr (e, missing) ↦ rw (missing, open_tx) (refl, refl, refl, refl)
    | inl (desc, found) ↦ rw (found, open_tx) (opened_tx-Same id (h.open_playback desc rate) c)
  ]

  same_device :
      (dev : DeviceId) (rate : ℕ) (mode : Mode p) (b : AudioBinding p)
      → same_binding p dev rate mode b ≡ true
      → b.rx_dev ≡ dev
  unfolding same_binding
  same_device dev rate mode b e =
      is_yes (DeviceId-discrete b.rx_dev dev) (both_true _ (both_true _ e).0).0
    where
      is_yes : {A : Type 0} (d : Dec A) → ite d true false ≡ true → A
      is_yes (yes a) e = a
      is_yes (no n) e = cc

  -- A stream is reused on the device of the worker that has it.
  reuse-FitsRx :
      (id : ℕ) (dev : DeviceId) (rate : ℕ) (mode : Mode p) (live : LiveBindings p)
      (b : AudioBinding p)
      → reuse_rx p id dev rate mode live ≡ true
      → b.rx_dev ≡ dev
      → Rigs p live
      → FitsRx p (at id live.rx_workers) (some b)
  unfolding reuse_rx
  reuse-FitsRx id dev rate mode live b reused e h = elim (Option-cases (at id live.rx_workers)) [
    | inl missing ↦ rw missing tt
    | inr (w, there) ↦ elim (Option-cases (at id live.audio)) [
      | inl unbound ↦ absurd (rw (there, unbound) at (h id).0)
      | inr (old, bound_to) ↦
          let kept : same_binding p dev rate mode old ≡ true =
            rw bound_to at (both_true (rx_running p id live) reused).1 in
          let on : w.rig ≡ old.rx_dev = rw (there, bound_to) at (h id).0 in
          rw there (on ∙ same_device dev rate mode old kept ∙ sym e)
    ]
  ]

  Same-Rigs : (live live1 : LiveBindings p) → Same live live1 → Rigs p live → Rigs p live1
  Same-Rigs live live1 (rx, tx, audio, drivers) h j = rw (rx, tx, audio) (h j)

  pub bind_rx-Same :
      (h : Host p) (id : ℕ) (dev : DeviceId) (rate : ℕ) (mode : Mode p) (reused : Bool) (c : Core p)
      → Same c.live (bind_rx p h id dev rate mode reused c).1.live
  unfolding bind_rx
  bind_rx-Same h id dev rate mode true c = (refl, refl, refl, refl)
  bind_rx-Same h id dev rate mode false c = open_rx-Same h id dev rate mode c

  bound-Rigs :
      (id : ℕ) (b : AudioBinding p) (reused : Bool) (live : LiveBindings p)
      → (reused ≡ true → FitsRx p (at id live.rx_workers) (some b))
      → Rigs p live
      → Rigs p (bound p id b reused live)
  unfolding bound
  bound-Rigs id b true live fits h =
      rebound p id live.rx_workers live.tx_workers live.audio h b (fits refl)
  bound-Rigs id b false live fits h =
      rebound_fresh p id live.rx_workers live.tx_workers live.audio h b

  rebind_tx-Rigs :
      (host : Host p) (id : ℕ) (dev : DeviceId) (rate : ℕ) (tx_dev : DeviceId) (tx_rate : ℕ)
      (mode : Mode p) (reused : Bool) (rx_rate : ℕ) (c : Core p)
      → ((b : AudioBinding p)
          → b.rx_dev ≡ dev
          → reused ≡ true
          → FitsRx p (at id c.live.rx_workers) (some b))
      → Rigs p c.live
      → Rigs p (rebind_tx p host id dev rate tx_dev tx_rate mode reused rx_rate c).1.live
  unfolding rebind_tx
  rebind_tx-Rigs host id dev rate tx_dev tx_rate mode reused rx_rate c fits h =
      let opened : Result ℕ × Core p = open_tx p host id tx_dev tx_rate c in
      let same = open_tx-Same host id tx_dev tx_rate c in
      let after = Same-Rigs c.live opened.1.live same h in
      elim (Result-cases opened.0) [
        | inr (e, failed) ↦ rw (failed, rebind_tx) after
        | inl (got, ok_tx) ↦
            rw (ok_tx, rebind_tx)
              (bound-Rigs id _ reused opened.1.live (λ r. rw same.0 (fits _ refl r)) after)
      ]

  rebind-Rigs :
      (host : Host p) (id : ℕ) (dev : DeviceId) (rate : ℕ) (tx_dev : DeviceId) (tx_rate : ℕ)
      (c0 : Core p)
      → Rigs p c0.live
      → Rigs p (rebind p host id dev rate tx_dev tx_rate c0).1.live
  unfolding rebind rebind_with
  rebind-Rigs host id dev rate tx_dev tx_rate c0 h =
      let c : Core p = record c0 { cache = refresh DeviceId-discrete host.enumerate } in
      let mode : Mode p = mode_of p id c in
      let reused : Bool = reuse_rx p id dev rate mode c.live in
      let rx : Result ℕ × Core p = bind_rx p host id dev rate mode reused c in
      let same = bind_rx-Same host id dev rate mode reused c in
      let after = Same-Rigs c.live rx.1.live same h in
      elim (Result-cases rx.0) [
        | inr (e, failed) ↦ rw (failed, rebind_with) after
        | inl (rx_rate, ok_rx) ↦
            rw (ok_rx, rebind_with)
              (rebind_tx-Rigs host id dev rate tx_dev tx_rate mode reused rx_rate rx.1
                (λ b e r. rw same.0 (reuse-FitsRx id dev rate mode c.live b r e h)) after)
      ]

  pub configure_audio-Rigs :
      (host : Host p) (id : ℕ) (dev : DeviceId) (requested fanout : ℕ) (tx_dev : DeviceId)
      (tx_rate : ℕ) (c : Core p)
      → Rigs p c.live
      → Rigs p (configure_audio p host id dev requested fanout tx_dev tx_rate c).1.live
  unfolding configure_audio
  configure_audio-Rigs host id dev requested fanout tx_dev tx_rate c h =
      let rate : ℕ = if requested == 0 then max_sample_rate else requested in
      let written : Bool × Supervisor p.db =
        Supervisor.configure_audio p.db id dev rate fanout tx_dev tx_rate c.supervisor in
      elim (Bool-cases (has_channel p id c)) [
        | inr unknown ↦ rw (unknown, configure_audio) h
        | inl known ↦ elim (Bool-cases written.0) [
          | inr failed ↦ rw (known, configure_audio, failed) h
          | inl done_ok ↦
              rw (known, configure_audio, done_ok) (rebind-Rigs host id dev rate tx_dev _ _ h)
        ]
      ]
