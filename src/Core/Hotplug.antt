-- ===== src/Core/Hotplug.antt =====
-- The idle tick of the core: `poll_hotplug` of crates/omnimodem/src/core/mod.rs.
pub mod Departed
use mathlib.Core.Logic.{ite}
use omnimodem.Base.{ℕ, Bool, true, false, ◌||◌, List, [], ◌∷◌, Option, none, some, if◌then◌else◌}
use omnimodem.Base.Store.{remove}
use omnimodem.Ids.{DeviceId, DeviceId-discrete}
use omnimodem.Device.{DeviceDescriptor}
use omnimodem.Device.Hotplug.{HotplugEvent, arrived, departed, poll}
use omnimodem.Ptt.Registry.{evict}
use omnimodem.Ptt.Lease.{release_all}
use omnimodem.Core.Event.{device_arrived, device_departed}
use omnimodem.Core.Live.{Parts, AudioBinding, LiveBindings, Core, Host, say}
use omnimodem.Core.Audio.{at, drop_at}

-- The channels of a map that pass a test.
unfoldable pub chans_where : {A : Type 0} → (ℕ → Bool) → List (ℕ × A) → List ℕ
chans_where test [] = []
chans_where test ((id, a) ∷ m) =
    let rest = chans_where test m in if test id then id ∷ rest else rest

abbrev pub is_device : DeviceId → DeviceId → Bool
is_device a b = ite (DeviceId-discrete a b) true false

unfoldable pub keys_device : DeviceId → Option DeviceId → Bool
keys_device dev none = false
keys_device dev (some d) = is_device d dev

module _ (p : Parts) where
  unfoldable pub on_device : DeviceId → Option (AudioBinding p) → Bool
  on_device dev none = false
  on_device dev (some b) = is_device b.rx_dev dev || is_device b.tx_dev dev

  unfoldable pub drop_audio : ℕ → LiveBindings p → LiveBindings p
  drop_audio id live = record live {
    sinks = drop_at id live.sinks;
    captures = drop_at id live.captures;
    audio = drop_at id live.audio;
    rx_workers = drop_at id live.rx_workers;
    tx_workers = drop_at id live.tx_workers;
    metrics = drop_at id live.metrics;
    spectra = drop_at id live.spectra;
    sdr_controls = drop_at id live.sdr_controls;
  }

  unfoldable pub drop_ptt : ℕ → LiveBindings p → LiveBindings p
  drop_ptt id live = record live {
    drivers = drop_at id live.drivers;
    ptt_dev = drop_at id live.ptt_dev;
    tx_workers = drop_at id live.tx_workers;
  }

  unfoldable pub drop_audios : List ℕ → Core p → Core p
  drop_audios [] c = c
  drop_audios (id ∷ ids) c =
      drop_audios ids record c { live = drop_audio id c.live; lease = release_all id c.lease }

  unfoldable pub drop_ptts : List ℕ → Core p → Core p
  drop_ptts [] c = c
  drop_ptts (id ∷ ids) c = drop_ptts ids record c { live = drop_ptt id c.live }

  unfoldable pub depart : DeviceId → Core p → Core p
  depart dev c0 =
      let c = record (say p (device_departed dev) c0) { ports = evict dev c0.ports } in
      let c1 =
        drop_audios (chans_where (λ id. on_device dev (at id c.live.audio)) c.live.audio) c in
      drop_ptts (chans_where (λ id. keys_device dev (at id c1.live.ptt_dev)) c1.live.ptt_dev) c1

  unfoldable pub react : HotplugEvent DeviceId → Core p → Core p
  react (arrived desc) c = say p (device_arrived desc.id desc.label) c
  react (departed dev) c = depart dev c

  unfoldable pub react_all : List (HotplugEvent DeviceId) → Core p → Core p
  react_all [] c = c
  react_all (event ∷ events) c = react_all events (react event c)

  -- `walk` is the order in which the watcher's set is iterated.
  unfoldable pub poll_hotplug : (List DeviceId → List DeviceId) → Host p → Core p → Core p
  poll_hotplug walk h c =
      let (events, known) = poll DeviceId-discrete walk h.enumerate c.watcher in
      react_all events record c { watcher = known }
