-- ===== src/Core/Tests/Rebound.antt =====
-- A core whose channel gets a transmit worker, and whose audio is then configured again.
use native.Mathlib.Decide.{ℕ_discrete}
use omnimodem.Base.{◌≡◌, refl, [], ◌∷◌, none, some, inl}
use omnimodem.Base.Store.{get, insert, remove}
use omnimodem.Base.Text.{split_once, text_eq}
use omnimodem.Ids.{is_sdr}
use omnimodem.Device.{refresh, refresh_from}
use omnimodem.Mode.Config
use omnimodem.Mode.Config.{ft8, arm_of, build}
use omnimodem.Persist.{upsert_channel, encode_row, encode_ptt}
use omnimodem.Persist.OneRow.{write, room, same_id}
use omnimodem.Ptt.Driver.{new_mock}
use omnimodem.Supervisor.{Supervisor, channel_mode, channel_rsid, channel_ptt_timing, apply}
use omnimodem.Supervisor
use omnimodem.Core.Error.{ok}
use omnimodem.Core.Event.{transmit_started, transmit_complete}
use omnimodem.Core.Live.{Core, Host, say}
use omnimodem.Core.Audio.{
  or_insert, find_device, has_channel, rx_running, reuse_rx, couple_control, open_rx, bind_rx,
  opened_tx, open_tx, at, same_binding,
}
use omnimodem.Core.Configure.{bound, rebind_tx, rebind_with, rebind, configure_audio}
use omnimodem.Core.Spawn.{
  with_cells, start_rx, spawn_rx, start_tx, spawn_tx, rsid_burst, try_spawn_workers,
}
use omnimodem.Core.Transmit.{transmit}
use omnimodem.Core.Command.{configure_audio_and_spawn}
use omnimodem.Core.Command.Ready.{IsReady, Drives}
use omnimodem.Core.Command.Rebind.{rebind-simulates}
use omnimodem.Core.Tests.{parts, remote, binding, host, sink, raw, air}

-- The channel is in ft8, with a sink and a driver: it gets a transmit worker. A sink opens for it
-- again when its audio is configured again.
abbrev able : Core parts
able = record raw { live = record raw.live { rx_workers = [] } }

able-IsReady : IsReady parts 1 able
unfolding get ℕ_discrete channel_mode Config.parse split_once arm_of text_eq build
able-IsReady = record {
  sink = sink;
  driver = new_mock;
  binding = binding;
  modulator = tt;
  has_sink = refl;
  has_driver = refl;
  has_binding = refl;
  no_worker = refl;
  in_mode = refl;
  built = refl;
}

abbrev playing_host : Host parts
playing_host = record host { open_playback = λ desc rate. inl (sink, 48000) }

abbrev rebound : Core parts
rebound =
    (configure_audio_and_spawn parts playing_host 1 remote 0 1 remote 0
      (try_spawn_workers parts 1 able)).1

rebinds :
    configure_audio_and_spawn parts playing_host 1 remote 0 1 remote 0
      (try_spawn_workers parts 1 able)
    ≡ (ok (24000, 48000), rebound)
unfolding configure_audio_and_spawn configure_audio has_channel Supervisor.configure_audio apply
    upsert_channel encode_row encode_ptt write room get insert remove rebind rebind_with reuse_rx
    rx_running bind_rx open_rx find_device couple_control is_sdr open_tx opened_tx rebind_tx bound
    or_insert try_spawn_workers with_cells spawn_rx start_rx spawn_tx start_tx rsid_burst
    channel_mode channel_rsid channel_ptt_timing refresh refresh_from ℕ_discrete Config.parse
    split_once arm_of text_eq build same_binding same_id
rebinds = refl

rebind-simulates_example :
    Drives parts 1 new_mock (try_spawn_workers parts 1 able).live
    × (at 1 rebound.live.tx_workers ≡ none)
    × (transmit parts air 1 (5 ∷ 0 ∷ []) 3 rebound
        ≡ some (ok 3, say parts (transmit_complete 1 3) (say parts (transmit_started 1 3) rebound)))
unfolding able-IsReady
rebind-simulates_example =
    rebind-simulates parts playing_host 1 remote 0 1 remote 0 able rebound (24000, 48000) air
      (5 ∷ 0 ∷ []) 3 able-IsReady rebinds
