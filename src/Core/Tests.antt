-- ===== src/Core/Tests.antt =====
-- A core with one channel, a remote receiver as its device.
mod Rebound
use native.Mathlib.Decide.{ℕ_discrete}
use omnimodem.Base.{ℕ, ◌≡◌, ◌≢◌, refl, ap, arith, true, false, List, [], ◌∷◌, none, some, inl, inr}
use omnimodem.Base.Store.{get, insert, remove}
use omnimodem.Base.Text.{codes, split_once, text_eq}
use omnimodem.Ids.{DeviceId, DeviceId-discrete, rtl_tcp, placeholder, is_sdr}
use omnimodem.Device.{refresh, refresh_from}
use omnimodem.Channel.{ChannelConfig, new_state}
use omnimodem.Mode.Config
use omnimodem.Mode.Config.{ft8, arm_of, build}
use omnimodem.Mode.Config.TwoFloats.{two_floats}
use omnimodem.Persist.{upsert_channel, encode_row, encode_ptt}
use omnimodem.Persist.OneRow.{one_row, write, room, same_id}
use omnimodem.Ptt.Driver.{busy, io, MockPtt, new_mock, fail_key, mock_key, mock_unkey, mock_driver}
use omnimodem.Ptt.Interlock.{begin_tx, end_tx}
use omnimodem.Ptt.Interlock.Depth.{held}
use omnimodem.Ptt.Sequence.{
  PlaybackHandle, World, submit, wait, sleep_cancellable, drain, expected_airtime, finish,
  hold_tail, play, drive_tx_cycle,
}
use omnimodem.Supervisor.{Supervisor, channel_mode, channel_rsid, channel_ptt_timing, apply}
use omnimodem.Supervisor
use omnimodem.Core.Error.{ptt, err, unsupported, ok}
use omnimodem.Core.Event.{ptt_keyed, transmit_started, transmit_complete}
use omnimodem.Core.Worker.Bytes.{byte_dsp}
use omnimodem.Core.Live.{Parts, AudioBinding, RxWorker, TxHandle, Core, Host, streaming, say}
use omnimodem.Core.Audio.{
  or_insert, find_device, has_channel, rx_running, reuse_rx, couple_control, open_rx, bind_rx,
  opened_tx, open_tx, at, same_binding,
}
use omnimodem.Core.Configure.{bound, rebind_tx, rebind_with, rebind, configure_audio}
use omnimodem.Core.Spawn.{
  with_cells, start_rx, spawn_rx, start_tx, spawn_tx, rsid_burst, try_spawn_workers,
}
use omnimodem.Core.Transmit.{samples_of, key_line, key_ptt, raw_cycle, send_raw, transmit}
use omnimodem.Core.Transmit.Muting.{transmit-Counts, key_ptt-failed}
use omnimodem.Core.Hotplug.{depart}
use omnimodem.Core.Hotplug.Departed.{view, lose_audio, lose_ptt, depart-view}
use omnimodem.Core.Command.{
  Command, configures_audio, rates_reply, configure_audio_and_spawn, handle, run,
}
use omnimodem.Core.Command.Departure.{run-departed}
use omnimodem.Core.Command.Ready.{IsReady, Drives}
use omnimodem.Core.Command.Rebind.{rebind-simulates}
use omnimodem.Core.Command.Reuse.{IsReceiving, rebind-reuses}

-- Every mode is received, and there is one mode.
abbrev parts : Parts
parts = record {
  floats = two_floats;
  dsp = byte_dsp;
  db = one_row;
  Capture = ℕ;
  Driver = MockPtt;
  driver = mock_driver;
  Gain = Unit;
  unity = tt;
  set_gain = λ rx tx g. g;
  Spectrum = Unit;
  spectrum_off = tt;
  Metrics = ℕ;
  no_metrics = 0;
  Control = ℕ;
  new_control = 0;
  couple = λ mode control. control;
  same_mode = λ a b. true;
  demod_kind = λ mode. streaming;
  build_modulator = λ mode. some tt;
  rsid_tx_key = λ mode. none;
  rsid_center = λ mode. 0;
}

abbrev remote : DeviceId
remote = rtl_tcp (codes "h") 1

abbrev hf : ChannelConfig
hf = record {
  id = 1;
  name = codes "hf";
  mode = codes "ft8";
  device_id = placeholder;
  sample_rate = 48000;
  fanout = 1;
  tx_device_id = placeholder;
  tx_sample_rate = 0;
  ptt = none;
  rsid_tx = false;
  rsid_rx = false;
}

abbrev core : Core parts
core = record {
  supervisor = record {
    channels = (1, new_state hf) ∷ [];
    store = record { row = none; writable = true };
  };
  cache = [];
  ports = [];
  live = record {
    sinks = [];
    captures = [];
    audio = [];
    drivers = [];
    ptt_dev = [];
    rx_workers = [];
    tx_workers = [];
    metrics = [];
    gains = [];
    spectra = [];
    sdr_controls = [];
    registered_devices = [];
  };
  lease = [];
  interlock = [];
  next_tx_id = 1;
  watcher = [];
  log = [];
}

abbrev host : Host parts
host = record {
  enumerate = [];
  open_capture = λ desc rate. inl (7, 24000);
  open_playback = λ desc rate. inr unsupported;
  open_driver = λ cfg. inr (busy []);
  store_error = [];
}

abbrev world : World
world = record {
  lead_entry = record { cancelled = false; now = 0 };
  lead_looks = [];
  start = 0;
  polls = [];
  tail_entry = record { cancelled = false; now = 0 };
  tail_looks = [];
}

abbrev commands : List (Command parts × Host parts × World)
commands = (configures_audio 1 remote 0 1 remote 0, host, world) ∷ []

abbrev bound_config : ChannelConfig
bound_config = record hf { device_id = remote; tx_device_id = remote }

abbrev receiver : RxWorker parts
receiver = record { rig = remote; capture = 7; mode = ft8; rsid_rx = false; is_running = true }

abbrev binding : AudioBinding parts
binding = record {
  rx_dev = remote;
  tx_dev = remote;
  tx_rate = 0;
  rx_req_rate = 48000;
  rx_rate = 24000;
  rx_mode = ft8;
}

abbrev receiving : Core parts
receiving = record core {
  supervisor = record {
    channels = (1, new_state bound_config) ∷ [];
    store = record { row = some (encode_row bound_config); writable = true };
  };
  live = record core.live {
    audio = (1, binding) ∷ [];
    rx_workers = (1, receiver) ∷ [];
    metrics = (1, 0) ∷ [];
    gains = (1, tt) ∷ [];
    sdr_controls = (1, 0) ∷ [];
  };
}

ran : configure_audio_and_spawn parts host 1 remote 0 1 remote 0 core ≡ (ok (24000, 0), receiving)
unfolding configure_audio_and_spawn configure_audio has_channel Supervisor.configure_audio apply
    upsert_channel encode_row encode_ptt write room get insert remove rebind rebind_with reuse_rx
    rx_running bind_rx open_rx find_device couple_control is_sdr open_tx opened_tx rebind_tx bound
    or_insert try_spawn_workers with_cells spawn_rx start_rx spawn_tx rsid_burst channel_mode
    channel_rsid channel_ptt_timing refresh refresh_from ℕ_discrete Config.parse split_once arm_of
    text_eq build
ran = refl

served : run parts (λ ids. ids) commands core ≡ some (rates_reply (ok (24000, 0)) ∷ [], receiving)
unfolding run handle
served = ap (λ r. some (rates_reply r.0 ∷ [], r.1)) ran

-- Nothing runs in the name of a remote receiver that has gone.
run-departed_example :
    let live = (depart parts remote receiving).live in
    ((w : RxWorker parts) → at 1 live.rx_workers ≡ some w → w.rig ≢ remote)
    × ((w : TxHandle parts) → at 1 live.tx_workers ≡ some w → w.rig ≢ remote)
    × ((b : AudioBinding parts)
        → at 1 live.audio ≡ some b
        → (b.rx_dev ≢ remote) × (b.tx_dev ≢ remote))
    × (at 1 live.ptt_dev ≢ some remote)
unfolding get
run-departed_example =
    run-departed parts (λ ids. ids) commands core receiving (rates_reply (ok (24000, 0)) ∷ [])
      remote 1 (λ id. (tt, tt)) served

depart-view_example :
    view parts 1 (depart parts remote receiving).live
    ≡ lose_ptt parts remote (lose_audio parts remote (view parts 1 receiving.live))
depart-view_example = depart-view parts remote receiving 1

is_receiving : IsReceiving parts 1 remote 48000 receiving
unfolding get ℕ_discrete
is_receiving = record {
  worker = receiver;
  binding = binding;
  has_worker = refl;
  runs = refl;
  has_binding = refl;
  on_device = refl;
  at_rate = refl;
  in_mode = refl;
}

-- The receiver is claimed already, and would not open again.
rebind-reuses_example :
    let result = rebind parts host 1 remote 48000 remote 0 receiving in
    (rebind parts
        (record host { open_capture = λ desc rate. inr unsupported })
        1
        remote
        48000
        remote
        0
        receiving
      ≡ result)
    × (at 1 result.1.live.rx_workers ≡ some receiver)
    × ((rates : ℕ × ℕ) → result.0 ≡ ok rates → rates.0 ≡ 24000)
unfolding is_receiving
rebind-reuses_example =
    rebind-reuses parts host (λ desc rate. inr unsupported) 1 remote 48000 remote 0 receiving
      is_receiving

abbrev sink : PlaybackHandle
sink = record { queued = []; submitted = 0; drained = 0; closed = none }

-- The channel with a sink and a driver, on the core's own thread.
abbrev raw : Core parts
raw = record receiving {
  live = record receiving.live { sinks = (1, sink) ∷ []; drivers = (1, new_mock) ∷ [] };
}

abbrev air : World
air = record world {
  polls = record { cancelled = false; drained = 2; elapsed = 2000000000; now = 2000000001 } ∷ [];
}

abbrev sent_core : Core parts
sent_core = record raw {
  live = record raw.live {
    sinks = (1, record sink { queued = (5 ∷ 6 ∷ []) ∷ []; submitted = 2 }) ∷ [];
    drivers = (1, record new_mock { keys = 1; unkeys = 1 }) ∷ [];
  };
  interlock = end_tx DeviceId-discrete remote (begin_tx DeviceId-discrete remote []);
  log = transmit_started 1 3 ∷ ptt_keyed 1 true ∷ ptt_keyed 1 false ∷ transmit_complete 1 3 ∷ [];
}

sent : transmit parts air 1 (5 ∷ 0 ∷ 6 ∷ 0 ∷ 7 ∷ []) 3 raw ≡ some (ok 3, sent_core)
unfolding transmit send_raw raw_cycle samples_of say get insert channel_ptt_timing drive_tx_cycle
    play hold_tail finish submit drain sleep_cancellable wait mock_key mock_unkey expected_airtime
    ℕ_discrete
sent = refl

transmit-Counts_example : get DeviceId-discrete remote sent_core.interlock ≡ held 0
unfolding get
transmit-Counts_example =
    transmit-Counts parts air 1 (5 ∷ 0 ∷ 6 ∷ 0 ∷ 7 ∷ []) 3 raw sent_core (ok 3) remote 0
      (omega arith) refl sent

abbrev stuck : Core parts
stuck = record raw { live = record raw.live { drivers = (1, fail_key new_mock) ∷ [] } }

refused : (key_ptt parts 1 true stuck).0 ≡ err (ptt (io (codes "mock key failure")))
unfolding key_ptt key_line mock_key get ℕ_discrete
refused = refl

key_ptt-failed_example :
    get DeviceId-discrete remote (key_ptt parts 1 true stuck).1.interlock ≡ held 0
unfolding get
key_ptt-failed_example =
    key_ptt-failed parts 1 stuck (ptt (io (codes "mock key failure"))) remote 0 (omega arith) refl
      refused
