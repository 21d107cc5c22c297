-- ===== src/Core/Command/Rebind.antt =====
-- What binding a channel's audio again does to its workers.
use omnimodem.Base.{
  ℕ, ◌≡◌, refl, ap, ◌∙◌, Bool, not, ◌||◌, ◌==◌, inl, inr, List, Option, none, some, if◌then◌else◌,
  Bool-cases, Option-cases,
}
use native.Mathlib.Decide.{ℕ_discrete}
use omnimodem.Base.Store.{get-remove_self}
use omnimodem.Base.Text.{Text}
use omnimodem.Ids.{DeviceId, DeviceId-discrete}
use omnimodem.Device.{refresh}
use omnimodem.Ptt.Sequence.{World}
use omnimodem.Supervisor.{Supervisor, max_sample_rate}
use omnimodem.Supervisor
use omnimodem.Core.Error.{Result, ok, err, Result-cases}
use omnimodem.Core.Event.{transmit_started, transmit_complete}
use omnimodem.Core.Live.{
  Parts, Mode, LiveBindings, Core, Host, DemodKind, no_demod, streaming, windowed, say,
}
use omnimodem.Core.Audio.{at, has, has_channel, mode_of, reuse_rx, bind_rx, open_tx}
use omnimodem.Core.Configure.{bound, rebind_tx, rebind_with, rebind, configure_audio}
use omnimodem.Core.Spawn.{is_moded, with_cells, start_rx, spawn_rx, spawn_tx, try_spawn_workers}
use omnimodem.Core.Transmit.{send_raw, transmit}
use omnimodem.Core.Command.{configure_audio_and_spawn}
use omnimodem.Core.Command.Ready.{IsReady, Drives, spawn-Drives}
use omnimodem.Core.Command.Bound.{bind_rx-Same, open_tx-Same}

module _ (p : Parts) where
  -- A channel with neither a transmit worker nor a driver to make one of.
  abbrev pub IsMute : ℕ → LiveBindings p → Type 0
  IsMute id live = (at id live.tx_workers ≡ none) × (at id live.drivers ≡ none)

  start_rx-IsMute :
      (id : ℕ) (dev : DeviceId) (capture : p.Capture) (mode : Mode p) (rsid : Bool)
      (live : LiveBindings p)
      → IsMute id live
      → IsMute id (start_rx p id dev capture mode rsid live)
  unfolding start_rx
  start_rx-IsMute id dev capture mode rsid live h = by_kind (p.demod_kind mode) refl
    where
      by_kind :
          (k : DemodKind)
          → p.demod_kind mode ≡ k
          → IsMute id (start_rx p id dev capture mode rsid live)
      by_kind no_demod e = rw (e, start_rx) h
      by_kind streaming e = rw (e, start_rx) h
      by_kind windowed e = rw (e, start_rx) h

  spawn_rx-IsMute :
      (id : ℕ) (mode : Mode p) (rsid : Bool) (live : LiveBindings p)
      → IsMute id live
      → IsMute id (spawn_rx p id mode rsid live)
  unfolding spawn_rx
  spawn_rx-IsMute id mode rsid live h = elim (Bool-cases (has id live.rx_workers)) [
    | inl there ↦ rw (there, spawn_rx) h
    | inr missing ↦ elim (Option-cases (at id live.audio)) [
      | inl unbound ↦ rw (missing, spawn_rx, unbound) h
      | inr (b, bound_to) ↦ elim (Option-cases (at id live.captures)) [
        | inl no_capture ↦ rw (missing, spawn_rx, bound_to, no_capture) h
        | inr (capture, held) ↦
            rw (missing, spawn_rx, bound_to, held)
              (start_rx-IsMute id b.rx_dev capture mode rsid live h)
      ]
    ]
  ]

  spawn_tx-IsMute :
      (id : ℕ) (mode : Mode p) (rsid : Option (Text × p.dsp.Sample)) (timing : ℕ × ℕ)
      (live : LiveBindings p)
      → IsMute id live
      → IsMute id (spawn_tx p id mode rsid timing live)
  unfolding spawn_tx
  spawn_tx-IsMute id mode rsid timing live h =
      elim (Bool-cases (has id live.tx_workers || not (is_moded mode))) [
        | inl no_need ↦ rw (no_need, spawn_tx) h
        | inr needed ↦ elim (Option-cases (at id live.sinks)) [
          | inl no_sink ↦ rw (needed, spawn_tx, no_sink) h
          | inr (sink, e_sink) ↦ rw (needed, spawn_tx, e_sink, h.1) h
        ]
      ]

  spawn-IsMute :
      (id : ℕ) (c : Core p) → IsMute id c.live → IsMute id (try_spawn_workers p id c).live
  unfolding try_spawn_workers with_cells
  spawn-IsMute id c h =
      spawn_tx-IsMute id _ _ _ _ (spawn_rx-IsMute id _ _ (with_cells p id c.live) h)

  abbrev OnOk : Result (ℕ × ℕ) → Type 0 → Type 0
  OnOk (ok rates) P = P
  OnOk (err e) P = Unit

  -- The outcome of a binding, for a channel whose driver is not in the map.
  abbrev Mutes : ℕ → Result (ℕ × ℕ) × Core p → Type 0
  Mutes id r = OnOk r.0 (IsMute id r.1.live)

  rebind_tx-IsMute :
      (h : Host p) (id : ℕ) (dev : DeviceId) (rate : ℕ) (tx_dev : DeviceId) (tx_rate : ℕ)
      (mode : Mode p) (reused : Bool) (rx_rate : ℕ) (c : Core p)
      → at id c.live.drivers ≡ none
      → Mutes id (rebind_tx p h id dev rate tx_dev tx_rate mode reused rx_rate c)
  unfolding rebind_tx bound
  rebind_tx-IsMute h id dev rate tx_dev tx_rate mode reused rx_rate c gone =
      let opened : Result ℕ × Core p = open_tx p h id tx_dev tx_rate c in
      let (rx, tx, audio, drivers) = open_tx-Same p h id tx_dev tx_rate c in
      elim (Result-cases opened.0) [
        | inr (e, failed) ↦ rw (failed, rebind_tx) tt
        | inl (got, ok_tx) ↦
            rw (ok_tx, rebind_tx)
              (get-remove_self ℕ_discrete id opened.1.live.tx_workers, ap (at id) drivers ∙ gone)
      ]

  rebind-IsMute :
      (h : Host p) (id : ℕ) (dev : DeviceId) (rate : ℕ) (tx_dev : DeviceId) (tx_rate : ℕ)
      (c0 : Core p)
      → at id c0.live.drivers ≡ none
      → Mutes id (rebind p h id dev rate tx_dev tx_rate c0)
  unfolding rebind rebind_with
  rebind-IsMute h id dev rate tx_dev tx_rate c0 gone =
      let c : Core p = record c0 { cache = refresh DeviceId-discrete h.enumerate } in
      let mode : Mode p = mode_of p id c in
      let reused : Bool = reuse_rx p id dev rate mode c.live in
      let bound_rx : Result ℕ × Core p = bind_rx p h id dev rate mode reused c in
      let (rx, tx, audio, drivers) = bind_rx-Same p h id dev rate mode reused c in
      elim (Result-cases bound_rx.0) [
        | inr (e, failed) ↦ rw (failed, rebind_with) tt
        | inl (rx_rate, ok_rx) ↦
            rw (ok_rx, rebind_with)
              (rebind_tx-IsMute h id dev rate tx_dev tx_rate mode reused rx_rate bound_rx.1
                (ap (at id) drivers ∙ gone))
      ]

  configure_audio-IsMute :
      (h : Host p) (id : ℕ) (dev : DeviceId) (requested fanout : ℕ) (tx_dev : DeviceId)
      (tx_rate : ℕ) (c : Core p)
      → at id c.live.drivers ≡ none
      → Mutes id (configure_audio p h id dev requested fanout tx_dev tx_rate c)
  unfolding configure_audio
  configure_audio-IsMute h id dev requested fanout tx_dev tx_rate c gone =
      let rate : ℕ = if requested == 0 then max_sample_rate else requested in
      let written : Bool × Supervisor p.db =
        Supervisor.configure_audio p.db id dev rate fanout tx_dev tx_rate c.supervisor in
      elim (Bool-cases (has_channel p id c)) [
        | inr unknown ↦ rw (unknown, configure_audio) tt
        | inl known ↦ elim (Bool-cases written.0) [
          | inr failed ↦ rw (known, configure_audio, failed) tt
          | inl done_ok ↦
              rw (known, configure_audio, done_ok) (rebind-IsMute h id dev rate tx_dev _ _ gone)
        ]
      ]

  simulated :
      (w : World) (id : ℕ) (payload : List ℕ) (tx_id : ℕ) (c : Core p)
      → IsMute id c.live
      → transmit p w id payload tx_id c
        ≡ some (ok tx_id, say p (transmit_complete id tx_id) (say p (transmit_started id tx_id) c))
  unfolding transmit send_raw say
  simulated w id payload tx_id c (no_worker, no_driver) = elim (Option-cases (at id c.live.sinks)) [
    | inl no_sink ↦ rw (no_worker, transmit, no_sink, send_raw) refl
    | inr (sink, e_sink) ↦ elim (Option-cases (at id c.live.audio)) [
      | inl unbound ↦ rw (no_worker, transmit, e_sink, send_raw, unbound) refl
      | inr (b, bound_to) ↦ rw (no_worker, transmit, e_sink, send_raw, bound_to, no_driver) refl
    ]
  ]

  audio-IsMute :
      (h : Host p) (id : ℕ) (dev : DeviceId) (requested fanout : ℕ) (tx_dev : DeviceId)
      (tx_rate : ℕ) (c : Core p)
      → at id c.live.drivers ≡ none
      → Mutes id (configure_audio_and_spawn p h id dev requested fanout tx_dev tx_rate c)
  unfolding configure_audio_and_spawn
  audio-IsMute h id dev requested fanout tx_dev tx_rate c gone =
      let r : Result (ℕ × ℕ) × Core p =
        configure_audio p h id dev requested fanout tx_dev tx_rate c in
      let muted = configure_audio-IsMute h id dev requested fanout tx_dev tx_rate c gone in
      elim (Result-cases r.0) [
        | inr (e, failed) ↦ rw (failed, configure_audio_and_spawn, failed) tt
        | inl (rates, bound_ok) ↦
            rw (bound_ok, configure_audio_and_spawn, bound_ok)
              (spawn-IsMute id r.1 (rw bound_ok at muted))
      ]

  -- A channel that is ready to transmit gets a transmit worker with its driver in it; when its audio
  -- is then configured again with success, it has no transmit worker: a transmission is answered
  -- with Ok, its start and its end are reported, and neither the line nor any sink is touched.
  pub rebind-simulates :
      (h : Host p) (id : ℕ) (dev : DeviceId) (requested fanout : ℕ) (tx_dev : DeviceId)
      (tx_rate : ℕ) (c c1 : Core p) (rates : ℕ × ℕ) (w : World) (payload : List ℕ) (tx_id : ℕ)
      (ready : IsReady p id c)
      → configure_audio_and_spawn p h id dev requested fanout tx_dev tx_rate
          (try_spawn_workers p id c)
        ≡ (ok rates, c1)
      → Drives p id ready.driver (try_spawn_workers p id c).live
        × (at id c1.live.tx_workers ≡ none)
        × (transmit p w id payload tx_id c1
            ≡ some (
              ok tx_id,
              say p (transmit_complete id tx_id) (say p (transmit_started id tx_id) c1),
            ))
  rebind-simulates h id dev requested fanout tx_dev tx_rate c c1 rates w payload tx_id ready e =
      let drives = spawn-Drives p id c ready in
      let muted : IsMute id c1.live = rw e at (
        audio-IsMute h id dev requested fanout tx_dev tx_rate (try_spawn_workers p id c)
          drives.1) in
      (drives, muted.0, simulated w id payload tx_id c1 muted)
