-- ===== src/Core/Command.antt =====
-- The core's loop: `handle_command`, `run` and `restore_live_bindings` of
-- crates/omnimodem/src/core/mod.rs. The commands for the spectrum and for an SDR's tuner are left
-- out; they change cells that nothing else here reads. So are `GetState`, `GetMetrics` and
-- `SuggestUdevRule`, which only answer, and `Shutdown`, which ends the loop. A handler that panics,
-- which the loop survives with what the handler has changed so far, is not modelled.
pub mod Rigs
pub mod Kept
pub mod Bound
pub mod Sent
pub mod Departure
pub mod Ready
pub mod Rebind
pub mod Reuse
use omnimodem.Base.{
  ℕ, ◌+◌, ◌%◌, ◌^◌, Bool, true, false, ◌||◌, ◌==◌, List, [], ◌∷◌, ◌++◌, Option, none, some, ◌⊎◌,
  if◌then◌else◌,
}
use omnimodem.Base.Text.{Text}
use omnimodem.Ids.{DeviceId, DeviceId-discrete, placeholder}
use omnimodem.Device.{DeviceDescriptor, refresh}
use omnimodem.Device
use omnimodem.Channel.{ChannelConfig, ChannelState}
use omnimodem.Ptt.Lease.{Grant, granted, held_by, acquire, release}
use omnimodem.Ptt.Registry.{PttConfig}
use omnimodem.Ptt.Sequence.{World}
use omnimodem.Core.Error.{unknown_channel, Result, ok, err}
use omnimodem.Core.Live.{Parts, Mode, LiveBindings, Core, Host}
use omnimodem.Core.Audio.{at, put, has_channel}
use omnimodem.Core.Configure.{configure_channel, configure_audio, configure_ptt}
use omnimodem.Core.Spawn.{try_spawn_workers}
use omnimodem.Core.Transmit.{key_ptt, transmit, transmit_image}
use omnimodem.Core.Hotplug.{poll_hotplug, is_device}

-- Whether a lease was granted, and who holds it.
pub record LeaseGrant : Type 0 where
  pub was_granted : Bool
  pub holder : ℕ

abbrev pub answer : ℕ → Grant → LeaseGrant
answer id granted = record { was_granted = true; holder = id }
answer id (held_by other) = record { was_granted = false; holder = other }

-- The devices that were found, and behind them those of the configuration file that were not.
unfoldable pub merge :
    List (DeviceDescriptor DeviceId)
    → List (DeviceDescriptor DeviceId)
    → List (DeviceDescriptor DeviceId)
merge [] devices = devices
merge (reg ∷ regs) devices = merge regs (
    if Device.has DeviceId-discrete reg.id (Device.ids devices)
    then devices
    else devices ++ (reg ∷ []))

module _ (p : Parts) where
  pub data Command : Type 0 where
    configures_channel : ℕ → Text → Text → Bool → Bool → Command
    configures_audio : ℕ → DeviceId → ℕ → ℕ → DeviceId → ℕ → Command
    configures_ptt : ℕ → PttConfig → Command
    keys_ptt : ℕ → Bool → Command
    transmits : ℕ → List ℕ → Command
    transmits_image : ℕ → (Mode p → (List p.dsp.Sample × ℕ) ⊎ Text) → Command
    lists_devices : Command
    acquires_lease : ℕ → Command
    releases_lease : ℕ → Command
    sets_gain : ℕ → p.floats.F → p.floats.F → Command
    ticks : Command

  -- What the caller hears; a tick of the loop has none.
  pub data Reply : Type 0 where
    done_reply : Result Unit → Reply
    rates_reply : Result (ℕ × ℕ) → Reply
    sent_reply : Result ℕ → Reply
    devices_reply : List (DeviceDescriptor DeviceId) → Reply
    lease_reply : Result LeaseGrant → Reply
    no_reply : Reply

  unfoldable pub configure_audio_and_spawn :
      Host p → ℕ → DeviceId → ℕ → ℕ → DeviceId → ℕ → Core p → Result (ℕ × ℕ) × Core p
  configure_audio_and_spawn h id device_id sample_rate fanout tx_device_id tx_sample_rate c =
      let r = configure_audio p h id device_id sample_rate fanout tx_device_id tx_sample_rate c in
      elim (r.0) [ ok rates ↦ (r.0, try_spawn_workers p id r.1) | err e ↦ r ]

  unfoldable pub configure_ptt_and_spawn : Host p → ℕ → PttConfig → Core p → Result Unit × Core p
  configure_ptt_and_spawn h id cfg c =
      let r = configure_ptt p h id cfg c in
      elim (r.0) [ ok u ↦ (r.0, try_spawn_workers p id r.1) | err e ↦ r ]

  -- The id is taken before it is known whether the transmission is accepted.
  abbrev pub with_next_id : Core p → Core p
  with_next_id c = record c { next_tx_id = (c.next_tx_id + 1) % 2 ^ 64 }

  unfoldable pub start_transmit : World → ℕ → List ℕ → Core p → Option (Result ℕ × Core p)
  start_transmit w id payload c =
      if has_channel p id c
      then transmit p w id payload c.next_tx_id (with_next_id c)
      else some (err (unknown_channel id), c)

  unfoldable pub start_image :
      ℕ → (Mode p → (List p.dsp.Sample × ℕ) ⊎ Text) → Core p → Result ℕ × Core p
  start_image id build c =
      if has_channel p id c
      then transmit_image p id build c.next_tx_id (with_next_id c)
      else (err (unknown_channel id), c)

  unfoldable pub list_devices : Host p → Core p → List (DeviceDescriptor DeviceId) × Core p
  list_devices h c = (
    merge c.live.registered_devices h.enumerate,
    record c { cache = refresh DeviceId-discrete h.enumerate },
  )

  unfoldable pub acquire_lease : ℕ → Core p → Result LeaseGrant × Core p
  acquire_lease id c = elim (at id c.live.audio) [
    | none ↦ (err (unknown_channel id), c)
    | some b ↦
        let r = acquire DeviceId-discrete b.tx_dev id c.lease in
        (ok (answer id r.0), record c { lease = r.1 })
  ]

  unfoldable pub release_lease : ℕ → Core p → Result Unit × Core p
  release_lease id c = elim (at id c.live.audio) [
    | none ↦ (err (unknown_channel id), c)
    | some b ↦ (ok tt, record c { lease = release DeviceId-discrete b.tx_dev id c.lease })
  ]

  unfoldable pub set_audio_gain : ℕ → p.floats.F → p.floats.F → Core p → Result Unit × Core p
  set_audio_gain id rx_gain tx_gain c =
      if has_channel p id c
      then (
        ok tt,
        record c {
          live = record c.live {
            gains =
                put id
                  (p.set_gain rx_gain tx_gain
                    (elim (at id c.live.gains) [ none ↦ p.unity | some g ↦ g ]))
                  c.live.gains;
          };
        },
      )
      else (err (unknown_channel id), c)

  -- None if a transmission on the core's thread has not returned.
  unfoldable pub handle :
      (List DeviceId → List DeviceId) → Host p → World → Command → Core p → Option (Reply × Core p)
  handle walk h w (configures_channel id name mode rsid_tx rsid_rx) c =
      let r = configure_channel p h id name mode rsid_tx rsid_rx c in some (done_reply r.0, r.1)
  handle walk h w (configures_audio id device_id sample_rate fanout tx_device_id tx_sample_rate) c =
      let r =
        configure_audio_and_spawn h id device_id sample_rate fanout tx_device_id tx_sample_rate c in
      some (rates_reply r.0, r.1)
  handle walk h w (configures_ptt id cfg) c =
      let r = configure_ptt_and_spawn h id cfg c in some (done_reply r.0, r.1)
  handle walk h w (keys_ptt id keyed) c = let r = key_ptt p id keyed c in some (done_reply r.0, r.1)
  handle walk h w (transmits id payload) c = elim (start_transmit w id payload c) [
    | none ↦ none
    | some (r, c1) ↦ some (sent_reply r, c1)
  ]
  handle walk h w (transmits_image id build) c =
      let r = start_image id build c in some (sent_reply r.0, r.1)
  handle walk h w lists_devices c = let r = list_devices h c in some (devices_reply r.0, r.1)
  handle walk h w (acquires_lease id) c = let r = acquire_lease id c in some (lease_reply r.0, r.1)
  handle walk h w (releases_lease id) c = let r = release_lease id c in some (done_reply r.0, r.1)
  handle walk h w (sets_gain id rx_gain tx_gain) c =
      let r = set_audio_gain id rx_gain tx_gain c in some (done_reply r.0, r.1)
  handle walk h w ticks c = some (no_reply, poll_hotplug p walk h c)

  -- The commands one after another, each with what it meets. None if one has not returned.
  unfoldable pub run :
      (List DeviceId → List DeviceId)
      → List (Command × Host p × World)
      → Core p
      → Option (List Reply × Core p)
  run walk [] c = some ([], c)
  run walk ((command, h, w) ∷ commands) c = elim (handle walk h w command c) [
    | none ↦ none
    | some (reply, c1) ↦ elim (run walk commands c1) [
      | none ↦ none
      | some (replies, c2) ↦ some (reply ∷ replies, c2)
    ]
  ]

  -- A restored channel whose devices cannot be bound is left alone.
  unfoldable pub restore_ptt : Host p → ℕ → Option PttConfig → Core p → Core p
  restore_ptt h id none c = c
  restore_ptt h id (some cfg) c = (configure_ptt p h id cfg c).1

  unfoldable pub restore_channel : Host p → ChannelConfig → Core p → Core p
  restore_channel h cfg c =
      if is_device cfg.device_id placeholder
      then c
      else let r =
          configure_audio p h cfg.id cfg.device_id cfg.sample_rate cfg.fanout cfg.tx_device_id
            cfg.tx_sample_rate c in
        elim (r.0) [
          | err e ↦ r.1
          | ok rates ↦ try_spawn_workers p cfg.id (restore_ptt h cfg.id cfg.ptt r.1)
        ]

  unfoldable pub restore_live_bindings : Host p → List ChannelConfig → Core p → Core p
  restore_live_bindings h [] c = c
  restore_live_bindings h (cfg ∷ cfgs) c = restore_live_bindings h cfgs (restore_channel h cfg c)
