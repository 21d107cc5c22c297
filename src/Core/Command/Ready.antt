-- ===== src/Core/Command/Ready.antt =====
-- A channel that is ready to transmit, and the transmit worker that it gets.
use mathlib.Core.Path.{subst}
use native.Mathlib.Decide.{ℕ_discrete}
use omnimodem.Base.{
  ℕ, ◌≡◌, refl, sym, ◌∙◌, arith, Bool, true, false, not, ◌||◌, inl, inr, Option, none, some,
  Bool-cases, Option-cases,
}
use omnimodem.Base.Store.{get-insert_self, get-remove_self}
use omnimodem.Base.Text.{Text}
use omnimodem.Ids.{DeviceId}
use omnimodem.Ptt.Sequence.{PlaybackHandle}
use omnimodem.Core.Live.{
  Parts, Mode, AudioBinding, TxHandle, LiveBindings, Core, DemodKind, no_demod, streaming, windowed,
}
use omnimodem.Core.Audio.{at, has, mode_of}
use omnimodem.Core.Spawn.{
  is_moded, with_cells, start_rx, spawn_rx, start_tx, spawn_tx, try_spawn_workers,
}

module _ (p : Parts) where
  -- A channel in a mode that can be sent, with a binding, an open sink and a driver, and no transmit
  -- worker yet.
  pub record IsReady (id : ℕ) (c : Core p) : Type 0 where
    pub sink : PlaybackHandle
    pub driver : p.Driver
    pub binding : AudioBinding p
    pub modulator : p.dsp.Modulator
    pub has_sink : at id c.live.sinks ≡ some sink
    pub has_driver : at id c.live.drivers ≡ some driver
    pub has_binding : at id c.live.audio ≡ some binding
    pub no_worker : at id c.live.tx_workers ≡ none
    pub in_mode : is_moded (mode_of p id c) ≡ true
    pub built : p.build_modulator (mode_of p id c) ≡ some modulator

  -- What the making of a transmit worker looks at.
  abbrev SameTx : ℕ → LiveBindings p → LiveBindings p → Type 0
  SameTx id new live =
      (at id new.sinks ≡ at id live.sinks)
      × (at id new.drivers ≡ at id live.drivers)
      × (at id new.audio ≡ at id live.audio)
      × (at id new.tx_workers ≡ at id live.tx_workers)

  same_tx : (id : ℕ) (live : LiveBindings p) → SameTx id live live
  same_tx id live = (refl, refl, refl, refl)

  start_rx-SameTx :
      (id : ℕ) (dev : DeviceId) (capture : p.Capture) (mode : Mode p) (rsid : Bool)
      (live : LiveBindings p)
      → SameTx id (start_rx p id dev capture mode rsid live) live
  unfolding start_rx
  start_rx-SameTx id dev capture mode rsid live = by_kind (p.demod_kind mode) refl
    where
      by_kind :
          (k : DemodKind)
          → p.demod_kind mode ≡ k
          → SameTx id (start_rx p id dev capture mode rsid live) live
      by_kind no_demod e = rw (e, start_rx) (same_tx id live)
      by_kind streaming e = rw (e, start_rx) (same_tx id live)
      by_kind windowed e = rw (e, start_rx) (same_tx id live)

  spawn_rx-SameTx :
      (id : ℕ) (mode : Mode p) (rsid : Bool) (live : LiveBindings p)
      → SameTx id (spawn_rx p id mode rsid live) live
  unfolding spawn_rx
  spawn_rx-SameTx id mode rsid live = elim (Bool-cases (has id live.rx_workers)) [
    | inl there ↦ rw (there, spawn_rx) (same_tx id live)
    | inr missing ↦ elim (Option-cases (at id live.audio)) [
      | inl unbound ↦ rw (missing, spawn_rx, unbound) (refl, refl, unbound, refl)
      | inr (b, bound_to) ↦ elim (Option-cases (at id live.captures)) [
        | inl no_capture ↦ rw (missing, spawn_rx, bound_to, no_capture) (refl, refl, bound_to, refl)
        | inr (capture, held) ↦
            let (sinks, drivers, audio, tx_workers) =
              start_rx-SameTx id b.rx_dev capture mode rsid live in
            rw (missing, spawn_rx, bound_to, held) (sinks, drivers, audio ∙ bound_to, tx_workers)
      ]
    ]
  ]

  -- A worker that has the driver, which is in the map no more.
  abbrev pub Drives : ℕ → p.Driver → LiveBindings p → Type 0
  Drives id driver live =
      ((handle : TxHandle p) × (at id live.tx_workers ≡ some handle) × (handle.driver ≡ driver))
      × (at id live.drivers ≡ none)

  spawn_tx-start_tx :
      (id : ℕ) (mode : Mode p) (rsid : Option (Text × p.dsp.Sample)) (timing : ℕ × ℕ)
      (live : LiveBindings p) (sink : PlaybackHandle) (driver : p.Driver) (b : AudioBinding p)
      (modulator : p.dsp.Modulator)
      → at id live.sinks ≡ some sink
      → at id live.drivers ≡ some driver
      → at id live.audio ≡ some b
      → at id live.tx_workers ≡ none
      → is_moded mode ≡ true
      → p.build_modulator mode ≡ some modulator
      → spawn_tx p id mode rsid timing live ≡ start_tx p id b sink driver modulator rsid timing live
  unfolding spawn_tx
  spawn_tx-start_tx id mode rsid timing live sink driver b modulator s d a t moded built =
      let needed : (has id live.tx_workers || not (is_moded mode)) ≡ false =
        ground (arith, t, moded) in
      rw (needed, spawn_tx, s, d, a, built) refl

  spawn_tx-Drives :
      (id : ℕ) (mode : Mode p) (rsid : Option (Text × p.dsp.Sample)) (timing : ℕ × ℕ)
      (live : LiveBindings p) (sink : PlaybackHandle) (driver : p.Driver) (b : AudioBinding p)
      (modulator : p.dsp.Modulator)
      → at id live.sinks ≡ some sink
      → at id live.drivers ≡ some driver
      → at id live.audio ≡ some b
      → at id live.tx_workers ≡ none
      → is_moded mode ≡ true
      → p.build_modulator mode ≡ some modulator
      → Drives id driver (spawn_tx p id mode rsid timing live)
  unfolding start_tx
  spawn_tx-Drives id mode rsid timing live sink driver b modulator s d a t moded built =
      subst (Drives id driver)
        (sym
          (spawn_tx-start_tx id mode rsid timing live sink driver b modulator s d a t moded built))
        (
          (_, get-insert_self ℕ_discrete id _ live.tx_workers, refl),
          get-remove_self ℕ_discrete id live.drivers,
        )

  -- A ready channel gets a worker that has its driver.
  pub spawn-Drives :
      (id : ℕ) (c : Core p) (ready : IsReady id c)
      → Drives id ready.driver (try_spawn_workers p id c).live
  unfolding try_spawn_workers with_cells
  spawn-Drives id c ready =
      let (sinks, drivers, audio, tx_workers) = spawn_rx-SameTx id _ _ (with_cells p id c.live) in
      spawn_tx-Drives id _ _ _ _ ready.sink ready.driver ready.binding ready.modulator
        (sinks ∙ ready.has_sink) (drivers ∙ ready.has_driver) (audio ∙ ready.has_binding)
        (tx_workers ∙ ready.no_worker) ready.in_mode ready.built
