-- ===== src/Core/Spawn.antt =====
-- The workers of a channel, `try_spawn_workers` of crates/omnimodem/src/core/mod.rs. The thread of a
-- worker starts here and runs on its own: `Core.Worker.run` for transmission.
use omnimodem.Base.{ℕ, Bool, true, false, not, ◌||◌, Option, none, some, if◌then◌else◌}
use omnimodem.Base.Text.{Text}
use omnimodem.Ids.{DeviceId, is_sdr}
use omnimodem.Ptt.Sequence.{PlaybackHandle}
use omnimodem.Mode.Config.{ModeConfig, no_mode}
use omnimodem.Supervisor.{channel_rsid, channel_ptt_timing}
use omnimodem.Core.Worker.{new_worker}
use omnimodem.Core.Live.{
  Parts, Mode, AudioBinding, RxWorker, LiveBindings, Core, no_demod, streaming, windowed,
}
use omnimodem.Core.Audio.{at, put, drop_at, has, or_insert, mode_of}

-- A channel that is in no mode sends samples as they are.
abbrev pub is_moded : {F : Type 0} → ModeConfig F → Bool
is_moded no_mode = false
is_moded _ = true

module _ (p : Parts) where
  -- The gain and spectrum cells of a channel. The RF spectrum of a receiver is its capture's.
  unfoldable pub with_cells : ℕ → LiveBindings p → LiveBindings p
  with_cells id live =
      let sdr : Bool = elim (at id live.audio) [ none ↦ false | some b ↦ is_sdr b.rx_dev ] in
      record live {
        gains = or_insert id p.unity live.gains;
        spectra = if sdr then live.spectra else or_insert id p.spectrum_off live.spectra;
      }

  -- A stream that no demodulator wants is put back.
  unfoldable pub start_rx :
      ℕ → DeviceId → p.Capture → Mode p → Bool → LiveBindings p → LiveBindings p
  start_rx id rig capture mode rsid_rx live =
      let taken = record live {
        captures = drop_at id live.captures;
        metrics = or_insert id p.no_metrics live.metrics;
      } in
      let worker : RxWorker p = record {
        rig = rig;
        capture = capture;
        mode = mode;
        rsid_rx = rsid_rx;
        is_running = true;
      } in
      elim (p.demod_kind mode) [
        | no_demod ↦ record taken { captures = put id capture taken.captures }
        | streaming ↦ record taken { rx_workers = put id worker taken.rx_workers }
        | windowed ↦ record taken { rx_workers = put id worker taken.rx_workers }
      ]

  -- Without a binding a capture that was taken out of the map is dropped with the pattern: the
  -- stream of a channel whose binding is gone.
  unfoldable pub spawn_rx : ℕ → Mode p → Bool → LiveBindings p → LiveBindings p
  spawn_rx id mode rsid_rx live = if has id live.rx_workers then live else elim (at id live.audio) [
    | none ↦ record live { captures = drop_at id live.captures }
    | some b ↦ elim (at id live.captures) [
      | none ↦ live
      | some capture ↦ start_rx id b.rx_dev capture mode rsid_rx live
    ]
  ]

  unfoldable pub rsid_burst : Bool → Mode p → Option (Text × p.dsp.Sample)
  rsid_burst rsid_tx mode =
      if rsid_tx
      then elim (p.rsid_tx_key mode) [ none ↦ none | some key ↦ some (key, p.rsid_center mode) ]
      else none

  -- The sink and the driver go into the worker.
  unfoldable pub start_tx :
      ℕ
      → AudioBinding p
      → PlaybackHandle
      → p.Driver
      → p.dsp.Modulator
      → Option (Text × p.dsp.Sample)
      → ℕ × ℕ
      → LiveBindings p
      → LiveBindings p
  start_tx id b sink driver modulator rsid timing live = record live {
    sinks = drop_at id live.sinks;
    drivers = drop_at id live.drivers;
    tx_workers =
        put id
          record {
            worker = new_worker p.dsp;
            rig = b.tx_dev;
            rate = b.tx_rate;
            modulator = modulator;
            sink = sink;
            driver = driver;
            rsid = rsid;
            timing = timing;
          }
          live.tx_workers;
  }

  unfoldable pub spawn_tx :
      ℕ → Mode p → Option (Text × p.dsp.Sample) → ℕ × ℕ → LiveBindings p → LiveBindings p
  spawn_tx id mode rsid timing live =
      if has id live.tx_workers || not (is_moded mode) then live else elim (at id live.sinks) [
        | none ↦ live
        | some sink ↦ elim (at id live.drivers) [
          | none ↦ live
          | some driver ↦ elim (at id live.audio) [
            | none ↦ live
            | some b ↦ elim (p.build_modulator mode) [
              | none ↦ live
              | some modulator ↦ start_tx id b sink driver modulator rsid timing live
            ]
          ]
        ]
      ]

  unfoldable pub try_spawn_workers : ℕ → Core p → Core p
  try_spawn_workers id c =
      let mode = mode_of p id c in
      let rsid = channel_rsid id c.supervisor.channels in
      let timing = channel_ptt_timing id c.supervisor.channels in
      record c {
        live =
            spawn_tx id mode (rsid_burst rsid.0 mode) timing
              (spawn_rx id mode rsid.1 (with_cells id c.live));
      }
