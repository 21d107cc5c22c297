-- ===== src/Core/Command/Kept.antt =====
-- The steps of the core that change a worker or a binding, and the devices of the workers.
use omnimodem.Base.{
  ℕ, ◌≡◌, refl, Bool, true, not, ◌||◌, inl, inr, List, [], ◌∷◌, Option, some, Bool-cases,
  Option-cases,
}
use omnimodem.Base.Text.{Text}
use omnimodem.Ids.{DeviceId}
use omnimodem.Ptt.Driver.{PttError, device_gone, permission_denied, busy, config, unsupported, io}
use omnimodem.Core.Live.{
  Parts, Mode, AudioBinding, RxWorker, LiveBindings, Core, DemodKind, no_demod, streaming, windowed,
  say,
}
use omnimodem.Core.Audio.{at, has}
use omnimodem.Core.Spawn.{
  is_moded, with_cells, start_rx, spawn_rx, start_tx, spawn_tx, try_spawn_workers,
}
use omnimodem.Core.Transmit.{evict_on_gone}
use omnimodem.Core.Hotplug.{drop_audio, drop_ptt, drop_audios, drop_ptts, depart}
use omnimodem.Core.Command.Rigs.{Rigs, without_tx, with_tx, with_rx, without_any}

module _ (p : Parts) where
  demod_cases :
      (P : DemodKind → Type 0) → P no_demod → P streaming → P windowed → (k : DemodKind) → P k
  demod_cases P a b c no_demod = a
  demod_cases P a b c streaming = b
  demod_cases P a b c windowed = c

  start_rx-Rigs :
      (id : ℕ) (b : AudioBinding p) (capture : p.Capture) (mode : Mode p) (rsid : Bool)
      (live : LiveBindings p)
      → at id live.audio ≡ some b
      → Rigs p live
      → Rigs p (start_rx p id b.rx_dev capture mode rsid live)
  unfolding start_rx
  start_rx-Rigs id b capture mode rsid live bound_to h =
      let w : RxWorker p = record {
        rig = b.rx_dev;
        capture = capture;
        mode = mode;
        rsid_rx = rsid;
        is_running = true;
      } in
      let fits = with_rx p id live.rx_workers live.tx_workers live.audio h w (rw bound_to refl) in
      demod_cases
        (λ k. p.demod_kind mode ≡ k → Rigs p (start_rx p id b.rx_dev capture mode rsid live))
        (λ e. rw (e, start_rx) h) (λ e. rw (e, start_rx) fits) (λ e. rw (e, start_rx) fits)
        (p.demod_kind mode) refl

  spawn_rx-Rigs :
      (id : ℕ) (mode : Mode p) (rsid : Bool) (live : LiveBindings p)
      → Rigs p live
      → Rigs p (spawn_rx p id mode rsid live)
  unfolding spawn_rx
  spawn_rx-Rigs id mode rsid live h = elim (Bool-cases (has id live.rx_workers)) [
    | inl there ↦ rw (there, spawn_rx) h
    | inr missing ↦ elim (Option-cases (at id live.audio)) [
      | inl unbound ↦ rw (missing, spawn_rx, unbound) h
      | inr (b, bound_to) ↦ elim (Option-cases (at id live.captures)) [
        | inl no_capture ↦ rw (missing, spawn_rx, bound_to, no_capture) h
        | inr (capture, held) ↦
            rw (missing, spawn_rx, bound_to, held)
              (start_rx-Rigs id b capture mode rsid live bound_to h)
      ]
    ]
  ]

  spawn_tx-Rigs :
      (id : ℕ) (mode : Mode p) (rsid : Option (Text × p.dsp.Sample)) (timing : ℕ × ℕ)
      (live : LiveBindings p)
      → Rigs p live
      → Rigs p (spawn_tx p id mode rsid timing live)
  unfolding spawn_tx start_tx
  spawn_tx-Rigs id mode rsid timing live h =
      elim (Bool-cases (has id live.tx_workers || not (is_moded mode))) [
        | inl no_need ↦ rw (no_need, spawn_tx) h
        | inr needed ↦ elim (Option-cases (at id live.sinks)) [
          | inl no_sink ↦ rw (needed, spawn_tx, no_sink) h
          | inr (sink, e_sink) ↦ elim (Option-cases (at id live.drivers)) [
            | inl no_driver ↦ rw (needed, spawn_tx, e_sink, no_driver) h
            | inr (driver, e_driver) ↦ elim (Option-cases (at id live.audio)) [
              | inl unbound ↦ rw (needed, spawn_tx, e_sink, e_driver, unbound) h
              | inr (b, bound_to) ↦ elim (Option-cases (p.build_modulator mode)) [
                | inl no_mod ↦ rw (needed, spawn_tx, e_sink, e_driver, bound_to, no_mod) h
                | inr (modulator, built) ↦
                    rw (needed, spawn_tx, e_sink, e_driver, bound_to, built)
                      (with_tx p id live.rx_workers live.tx_workers live.audio h _
                        (rw bound_to refl))
              ]
            ]
          ]
        ]
      ]

  pub evict-Rigs :
      (id : ℕ) (e : PttError) (c : Core p) → Rigs p c.live → Rigs p (evict_on_gone p id e c).live
  unfolding evict_on_gone
  evict-Rigs id (device_gone d) c h =
      without_tx p id c.live.rx_workers c.live.tx_workers c.live.audio h
  evict-Rigs id (permission_denied d) c h = h
  evict-Rigs id (busy d) c h = h
  evict-Rigs id (config d) c h = h
  evict-Rigs id unsupported c h = h
  evict-Rigs id (io d) c h = h

  drop_audios-Rigs : (ids : List ℕ) (c : Core p) → Rigs p c.live → Rigs p (drop_audios p ids c).live
  unfolding drop_audios drop_audio
  drop_audios-Rigs [] c h = h
  drop_audios-Rigs (id ∷ ids) c h =
      drop_audios-Rigs ids _ (without_any p id c.live.rx_workers c.live.tx_workers c.live.audio h)

  drop_ptts-Rigs : (ids : List ℕ) (c : Core p) → Rigs p c.live → Rigs p (drop_ptts p ids c).live
  unfolding drop_ptts drop_ptt
  drop_ptts-Rigs [] c h = h
  drop_ptts-Rigs (id ∷ ids) c h =
      drop_ptts-Rigs ids _ (without_tx p id c.live.rx_workers c.live.tx_workers c.live.audio h)

  pub depart-Rigs : (dev : DeviceId) (c : Core p) → Rigs p c.live → Rigs p (depart p dev c).live
  unfolding depart say
  depart-Rigs dev c h = drop_ptts-Rigs _ _ (drop_audios-Rigs _ _ h)

  pub spawn-Rigs : (id : ℕ) (c : Core p) → Rigs p c.live → Rigs p (try_spawn_workers p id c).live
  unfolding try_spawn_workers with_cells
  spawn-Rigs id c h = spawn_tx-Rigs id _ _ _ _ (spawn_rx-Rigs id _ _ (with_cells p id c.live) h)
