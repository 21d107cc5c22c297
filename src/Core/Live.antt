-- ===== src/Core/Live.antt =====
-- What the core's loop owns, crates/omnimodem/src/core/mod.rs: the live bindings of the channels,
-- and around them the supervisor, the leases, the interlock and the events that were sent.
use omnimodem.Base.{ℕ, Bool, List, [], ◌∷◌, ◌++◌, Option, ◌⊎◌}
use omnimodem.Base.Text.{Text}
use omnimodem.Ids.{DeviceId}
use omnimodem.Device.{DeviceDescriptor}
use omnimodem.Mode.Config.{Floats, ModeConfig}
use omnimodem.Persist.{Database}
use omnimodem.Ptt.Driver.{PttDriver, PttError}
use omnimodem.Ptt.Registry.{PttConfig, Ports}
use omnimodem.Ptt.Sequence.{PlaybackHandle}
use omnimodem.Supervisor.{Supervisor}
use omnimodem.Core.Error.{AudioError}
use omnimodem.Core.Event.{TelemetryEvent}
use omnimodem.Core.Worker.{Dsp, TxWorker}

-- How the registry of modes receives a mode.
pub data DemodKind : Type 0 where
  no_demod : DemodKind
  streaming : DemodKind
  windowed : DemodKind

-- What the core handles without looking inside, and what it asks of the modes: a capture stream, a
-- driver of the line, the cells that it shares with the workers, and `==` on modes.
pub record Parts : Type 1 where
  pub floats : Floats
  pub dsp : Dsp
  pub db : Database
  pub Capture : Type 0
  pub Driver : Type 0
  pub driver : PttDriver Driver
  pub Gain : Type 0
  pub unity : Gain
  pub set_gain : floats.F → floats.F → Gain → Gain
  pub Spectrum : Type 0
  pub spectrum_off : Spectrum
  pub Metrics : Type 0
  pub no_metrics : Metrics
  pub Control : Type 0
  pub new_control : Control
  pub couple : ModeConfig floats.F → Control → Control
  pub same_mode : ModeConfig floats.F → ModeConfig floats.F → Bool
  pub demod_kind : ModeConfig floats.F → DemodKind
  pub build_modulator : ModeConfig floats.F → Option dsp.Modulator
  pub rsid_tx_key : ModeConfig floats.F → Option Text
  pub rsid_center : ModeConfig floats.F → dsp.Sample

module _ (p : Parts) where
  abbrev pub Mode : Type 0
  Mode = ModeConfig p.floats.F

  pub record AudioBinding : Type 0 where
    pub rx_dev : DeviceId
    pub tx_dev : DeviceId
    pub tx_rate : ℕ
    pub rx_req_rate : ℕ
    pub rx_rate : ℕ
    pub rx_mode : Mode

  -- A receive worker with the stream that it has taken. `is_running` is lost when its thread ends.
  pub record RxWorker : Type 0 where
    pub rig : DeviceId
    pub capture : p.Capture
    pub mode : Mode
    pub rsid_rx : Bool
    pub is_running : Bool

  -- A transmit worker's handle, with what its thread was given.
  pub record TxHandle : Type 0 where
    pub worker : TxWorker p.dsp
    pub rig : DeviceId
    pub rate : ℕ
    pub modulator : p.dsp.Modulator
    pub sink : PlaybackHandle
    pub driver : p.Driver
    pub rsid : Option (Text × p.dsp.Sample)
    pub timing : ℕ × ℕ

  -- The maps, by channel.
  pub record LiveBindings : Type 0 where
    pub sinks : List (ℕ × PlaybackHandle)
    pub captures : List (ℕ × p.Capture)
    pub audio : List (ℕ × AudioBinding)
    pub drivers : List (ℕ × p.Driver)
    pub ptt_dev : List (ℕ × DeviceId)
    pub rx_workers : List (ℕ × RxWorker)
    pub tx_workers : List (ℕ × TxHandle)
    pub metrics : List (ℕ × p.Metrics)
    pub gains : List (ℕ × p.Gain)
    pub spectra : List (ℕ × p.Spectrum)
    pub sdr_controls : List (ℕ × p.Control)
    pub registered_devices : List (DeviceDescriptor DeviceId)

  -- The state of the loop.
  pub record Core : Type 0 where
    pub supervisor : Supervisor p.db
    pub cache : List (DeviceId × DeviceDescriptor DeviceId)
    pub ports : Ports
    pub live : LiveBindings
    pub lease : List (DeviceId × ℕ)
    pub interlock : List (DeviceId × ℕ)
    pub next_tx_id : ℕ
    pub watcher : List DeviceId
    pub log : List TelemetryEvent

  -- What the host shows while a command is served: the enumeration, the streams that a backend
  -- opens for a device at a rate, with the rate it takes, the driver that is opened for a wiring,
  -- and the words of a database error.
  pub record Host : Type 0 where
    pub enumerate : List (DeviceDescriptor DeviceId)
    pub open_capture : DeviceDescriptor DeviceId → ℕ → (p.Capture × ℕ) ⊎ AudioError
    pub open_playback : DeviceDescriptor DeviceId → ℕ → (PlaybackHandle × ℕ) ⊎ AudioError
    pub open_driver : PttConfig → p.Driver ⊎ PttError
    pub store_error : Text

  unfoldable pub say : TelemetryEvent → Core → Core
  say event c = record c { log = c.log ++ (event ∷ []) }
