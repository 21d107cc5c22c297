-- ===== src/Core/Command/Departure.antt =====
-- The workers of a device that has departed, after any commands.
use omnimodem.Base.{
  ℕ, ◌≡◌, ◌≢◌, refl, sym, ◌∙◌, Bool, ◌⊎◌, List, [], ◌∷◌, Option, none, some, inl, inr, Bool-cases,
  Option-cases, Sum-cases,
}
use omnimodem.Base.Text.{Text}
use omnimodem.Ids.{DeviceId}
use omnimodem.Device.Hotplug.{HotplugEvent, arrived, departed}
use omnimodem.Mode.Config
use omnimodem.Ptt.Registry.{PttConfig, build_driver}
use omnimodem.Ptt.Sequence.{World}
use omnimodem.Supervisor.{Supervisor, channel_ptt_timing}
use omnimodem.Supervisor
use omnimodem.Core.Error.{Result, Result-cases}
use omnimodem.Core.Live.{Parts, Mode, AudioBinding, RxWorker, TxHandle, Core, Host, say}
use omnimodem.Core.Audio.{at, has_channel}
use omnimodem.Core.Configure.{configure_channel, configure_audio, configure_ptt}
use omnimodem.Core.Hotplug.{depart, react, react_all, poll_hotplug}
use omnimodem.Core.Hotplug.Departed.{depart-IsClear}
use omnimodem.Core.Command.{
  Command, configures_channel, configures_audio, configures_ptt, keys_ptt, transmits,
  transmits_image, lists_devices, acquires_lease, releases_lease, sets_gain, ticks, Reply,
  configure_audio_and_spawn, configure_ptt_and_spawn, with_next_id, start_transmit, start_image,
  list_devices, acquire_lease, release_lease, set_audio_gain, handle, run,
}
use omnimodem.Core.Command.Rigs.{FitsRx, FitsTx, Rigs}
use omnimodem.Core.Command.Kept.{spawn-Rigs, depart-Rigs}
use omnimodem.Core.Command.Bound.{configure_audio-Rigs}
use omnimodem.Core.Command.Sent.{After, key_ptt-Rigs, transmit-Rigs, image-Rigs}

module _ (p : Parts) where
  start_transmit-Rigs :
      (w : World) (id : ℕ) (payload : List ℕ) (c : Core p)
      → Rigs p c.live
      → After p (start_transmit p w id payload c)
  unfolding start_transmit
  start_transmit-Rigs w id payload c h = elim (Bool-cases (has_channel p id c)) [
    | inl known ↦
        rw (known, start_transmit) (transmit-Rigs p w id payload c.next_tx_id (with_next_id p c) h)
    | inr unknown ↦ rw (unknown, start_transmit) h
  ]

  start_image-Rigs :
      (id : ℕ) (build : Mode p → (List p.dsp.Sample × ℕ) ⊎ Text) (c : Core p)
      → Rigs p c.live
      → Rigs p (start_image p id build c).1.live
  unfolding start_image
  start_image-Rigs id build c h = elim (Bool-cases (has_channel p id c)) [
    | inl known ↦ rw (known, start_image) (image-Rigs p id build c.next_tx_id (with_next_id p c) h)
    | inr unknown ↦ rw (unknown, start_image) h
  ]

  configure_ptt-Rigs :
      (host : Host p) (id : ℕ) (cfg : PttConfig) (c : Core p)
      → Rigs p c.live
      → Rigs p (configure_ptt p host id cfg c).1.live
  unfolding configure_ptt
  configure_ptt-Rigs host id cfg c h = elim (Bool-cases (has_channel p id c)) [
    | inr unknown ↦ rw (unknown, configure_ptt) h
    | inl known ↦ elim (Bool-cases (Supervisor.configure_ptt p.db id cfg c.supervisor).0) [
      | inr failed ↦ rw (known, configure_ptt, failed) h
      | inl written ↦ elim (Sum-cases (build_driver host.open_driver cfg c.ports).0) [
        | inr (e, refused) ↦ rw (known, configure_ptt, written, refused) h
        | inl (driver, opened) ↦ rw (known, configure_ptt, written, opened) h
      ]
    ]
  ]

  audio-Rigs :
      (host : Host p) (id : ℕ) (dev : DeviceId) (rate fanout : ℕ) (tx_dev : DeviceId) (tx_rate : ℕ)
      (c : Core p)
      → Rigs p c.live
      → Rigs p (configure_audio_and_spawn p host id dev rate fanout tx_dev tx_rate c).1.live
  unfolding configure_audio_and_spawn
  audio-Rigs host id dev rate fanout tx_dev tx_rate c h =
      let r : Result (ℕ × ℕ) × Core p =
        configure_audio p host id dev rate fanout tx_dev tx_rate c in
      let after = configure_audio-Rigs p host id dev rate fanout tx_dev tx_rate c h in
      elim (Result-cases r.0) [
        | inr (e, failed) ↦ rw (failed, configure_audio_and_spawn) after
        | inl (rates, bound_ok) ↦
            rw (bound_ok, configure_audio_and_spawn) (spawn-Rigs p id r.1 after)
      ]

  ptt-Rigs :
      (host : Host p) (id : ℕ) (cfg : PttConfig) (c : Core p)
      → Rigs p c.live
      → Rigs p (configure_ptt_and_spawn p host id cfg c).1.live
  unfolding configure_ptt_and_spawn
  ptt-Rigs host id cfg c h =
      let r : Result Unit × Core p = configure_ptt p host id cfg c in
      let after = configure_ptt-Rigs host id cfg c h in
      elim (Result-cases r.0) [
        | inr (e, failed) ↦ rw (failed, configure_ptt_and_spawn) after
        | inl (u, wired) ↦ rw (wired, configure_ptt_and_spawn) (spawn-Rigs p id r.1 after)
      ]

  channel-Rigs :
      (host : Host p) (id : ℕ) (name mode : Text) (rsid_tx rsid_rx : Bool) (c : Core p)
      → Rigs p c.live
      → Rigs p (configure_channel p host id name mode rsid_tx rsid_rx c).1.live
  unfolding configure_channel say
  channel-Rigs host id name mode rsid_tx rsid_rx c h =
      elim (Option-cases (Config.parse p.floats mode)) [
        | inl unparsed ↦ rw (unparsed, configure_channel) h
        | inr (m, parsed) ↦
            elim (Bool-cases
              (Supervisor.configure_channel p.db id name mode rsid_tx rsid_rx c.supervisor).0) [
                | inl written ↦ rw (parsed, configure_channel, written) h
                | inr failed ↦ rw (parsed, configure_channel, failed) h
              ]
      ]

  lease-Rigs : (id : ℕ) (c : Core p) → Rigs p c.live → Rigs p (acquire_lease p id c).1.live
  unfolding acquire_lease
  lease-Rigs id c h = elim (Option-cases (at id c.live.audio)) [
    | inl unbound ↦ rw (unbound, acquire_lease) h
    | inr (b, bound_to) ↦ rw (bound_to, acquire_lease) h
  ]

  release-Rigs : (id : ℕ) (c : Core p) → Rigs p c.live → Rigs p (release_lease p id c).1.live
  unfolding release_lease
  release-Rigs id c h = elim (Option-cases (at id c.live.audio)) [
    | inl unbound ↦ rw (unbound, release_lease) h
    | inr (b, bound_to) ↦ rw (bound_to, release_lease) h
  ]

  gain-Rigs :
      (id : ℕ) (rx_gain tx_gain : p.floats.F) (c : Core p)
      → Rigs p c.live
      → Rigs p (set_audio_gain p id rx_gain tx_gain c).1.live
  unfolding set_audio_gain
  gain-Rigs id rx_gain tx_gain c h = elim (Bool-cases (has_channel p id c)) [
    | inl known ↦ rw (known, set_audio_gain) h
    | inr unknown ↦ rw (unknown, set_audio_gain) h
  ]

  react_all-Rigs :
      (events : List (HotplugEvent DeviceId)) (c : Core p)
      → Rigs p c.live
      → Rigs p (react_all p events c).live
  unfolding react_all react say
  react_all-Rigs [] c h = h
  react_all-Rigs (arrived desc ∷ events) c h = react_all-Rigs events _ h
  react_all-Rigs (departed dev ∷ events) c h = react_all-Rigs events _ (depart-Rigs p dev c h)

  handle-Rigs :
      (walk : List DeviceId → List DeviceId) (host : Host p) (w : World) (command : Command p)
      (c : Core p)
      → Rigs p c.live
      → After p (handle p walk host w command c)
  unfolding handle list_devices poll_hotplug
  handle-Rigs walk host w (configures_channel id name mode rsid_tx rsid_rx) c h =
      channel-Rigs host id name mode rsid_tx rsid_rx c h
  handle-Rigs walk host w (configures_audio id dev rate fanout tx_dev tx_rate) c h =
      audio-Rigs host id dev rate fanout tx_dev tx_rate c h
  handle-Rigs walk host w (configures_ptt id cfg) c h = ptt-Rigs host id cfg c h
  handle-Rigs walk host w (keys_ptt id keyed) c h = key_ptt-Rigs p id keyed c h
  handle-Rigs walk host w (transmits id payload) c h =
      let after = start_transmit-Rigs w id payload c h in
      elim (Option-cases (start_transmit p w id payload c)) [
        | inl going ↦ rw (going, handle) tt
        | inr ((r, c1), returned) ↦ rw (returned, handle) (rw returned at after)
      ]
  handle-Rigs walk host w (transmits_image id build) c h = start_image-Rigs id build c h
  handle-Rigs walk host w lists_devices c h = h
  handle-Rigs walk host w (acquires_lease id) c h = lease-Rigs id c h
  handle-Rigs walk host w (releases_lease id) c h = release-Rigs id c h
  handle-Rigs walk host w (sets_gain id rx_gain tx_gain) c h = gain-Rigs id rx_gain tx_gain c h
  handle-Rigs walk host w ticks c h = react_all-Rigs _ _ h

  run-Rigs :
      (walk : List DeviceId → List DeviceId) (commands : List (Command p × Host p × World))
      (c : Core p)
      → Rigs p c.live
      → After p (run p walk commands c)
  unfolding run
  run-Rigs walk [] c h = h
  run-Rigs walk ((command, host, w) ∷ commands) c h =
      let after = handle-Rigs walk host w command c h in
      elim (Option-cases (handle p walk host w command c)) [
        | inl going ↦ rw (going, run) tt
        | inr ((reply, c1), returned) ↦
            let rest = run-Rigs walk commands c1 (rw returned at after) in
            elim (Option-cases (run p walk commands c1)) [
              | inl going ↦ rw (returned, run, going) tt
              | inr ((replies, c2), ended) ↦ rw (returned, run, ended) (rw ended at rest)
            ]
      ]

  off_rx :
      (dev : DeviceId) (v : Option (AudioBinding p)) (w : RxWorker p)
      → ((b : AudioBinding p) → v ≡ some b → (b.rx_dev ≢ dev) × (b.tx_dev ≢ dev))
      → FitsRx p (some w) v
      → w.rig ≢ dev
  off_rx dev none w clear fits e = fits
  off_rx dev (some b) w clear fits e = (clear b refl).0 (sym fits ∙ e)

  off_tx :
      (dev : DeviceId) (v : Option (AudioBinding p)) (w : TxHandle p)
      → ((b : AudioBinding p) → v ≡ some b → (b.rx_dev ≢ dev) × (b.tx_dev ≢ dev))
      → FitsTx p (some w) v
      → w.rig ≢ dev
  off_tx dev none w clear fits e = fits
  off_tx dev (some b) w clear fits e = (clear b refl).1 (sym fits ∙ e)

  -- Whatever commands and ticks the core has served from a start in which each worker carries the
  -- identity of its channel's device: after it has dealt with the departure of a device, no worker
  -- is left that carries that device's identity, by which a receive worker asks the interlock and a
  -- transmit worker the interlock and the lease; and no channel's binding names the device, for
  -- reception, transmission or PTT. The stream or the driver inside a worker may be another
  -- device's.
  pub run-departed :
      (walk : List DeviceId → List DeviceId) (commands : List (Command p × Host p × World))
      (c c1 : Core p) (replies : List (Reply p)) (dev : DeviceId) (id : ℕ)
      → Rigs p c.live
      → run p walk commands c ≡ some (replies, c1)
      → let live = (depart p dev c1).live in
        ((w : RxWorker p) → at id live.rx_workers ≡ some w → w.rig ≢ dev)
        × ((w : TxHandle p) → at id live.tx_workers ≡ some w → w.rig ≢ dev)
        × ((b : AudioBinding p) → at id live.audio ≡ some b → (b.rx_dev ≢ dev) × (b.tx_dev ≢ dev))
        × (at id live.ptt_dev ≢ some dev)
  run-departed walk commands c c1 replies dev id h served =
      let after : Rigs p c1.live = rw served at (run-Rigs walk commands c h) in
      let fits = depart-Rigs p dev c1 after id in
      let (clear, no_ptt) = depart-IsClear p dev c1 id in
      let audio = at id (depart p dev c1).live.audio in
      (
        (λ w there. off_rx dev audio w clear (rw there at fits.0)),
        (λ w there. off_tx dev audio w clear (rw there at fits.1)),
        clear,
        no_ptt,
      )
