-- ===== src/Core/Transmit.antt =====
-- Manual keying and transmission: `key_ptt`, `transmit`, `transmit_image` and `evict_on_gone` of
-- crates/omnimodem/src/core/mod.rs.
pub mod Muting
use omnimodem.Base.{
  ℕ, ◌+◌, ◌*◌, Bool, true, false, List, [], ◌∷◌, ◌++◌, Option, none, some, ◌⊎◌, inl, inr,
  if◌then◌else◌,
}
use omnimodem.Base.Store.{remove}
use omnimodem.Base.Text.{Text, codes}
use omnimodem.Ids.{DeviceId, DeviceId-discrete}
use omnimodem.Ptt.Interlock.{begin_tx, end_tx}
use omnimodem.Ptt.Driver.{PttError, device_gone, config}
use omnimodem.Ptt.Registry.{evict}
use omnimodem.Ptt.Sequence.{
  PlaybackHandle, TxCycleOutcome, done, aborted, key_failed, submit_failed, unkey_failed, World,
  Burst, drive_tx_cycle,
}
use omnimodem.Supervisor.{channel_ptt_timing}
use omnimodem.Core.Event.{ptt_keyed, transmit_started, transmit_complete}
use omnimodem.Core.Error.{picture, ptt, Result, ok, err}
use omnimodem.Core.Worker.{TxJob, frame_job, prebuilt_job, enqueue, payload_to_frame}
use omnimodem.Core.Live.{Parts, Mode, AudioBinding, TxHandle, LiveBindings, Core, say}
use omnimodem.Core.Audio.{at, put, drop_at, has, mode_of}

-- `chunks_exact(2)` as little-endian samples: an odd byte at the end is left out.
unfoldable pub samples_of : List ℕ → List ℕ
samples_of [] = []
samples_of (a ∷ []) = []
samples_of (a ∷ (b ∷ bs)) = (a + 256 * b) ∷ samples_of bs

abbrev pub verdict : TxCycleOutcome → Option PttError
verdict done = none
verdict aborted = none
verdict (key_failed e) = some e
verdict (submit_failed e) = some e
verdict (unkey_failed e) = some e

module _ (p : Parts) where
  unfoldable pub evict_on_gone : ℕ → PttError → Core p → Core p
  evict_on_gone id (device_gone device) c = record c {
    live = record c.live {
      drivers = drop_at id c.live.drivers;
      tx_workers = drop_at id c.live.tx_workers;
      ptt_dev = drop_at id c.live.ptt_dev;
    };
    ports = elim (at id c.live.ptt_dev) [ none ↦ c.ports | some dev ↦ evict dev c.ports ];
  }
  evict_on_gone id _ c = c

  -- The transmit device, or else the PTT's.
  unfoldable pub rig_of : ℕ → LiveBindings p → Option DeviceId
  rig_of id live = elim (at id live.audio) [ some b ↦ some b.tx_dev | none ↦ at id live.ptt_dev ]

  abbrev pub begin_on : Option DeviceId → List (DeviceId × ℕ) → List (DeviceId × ℕ)
  begin_on none keyed = keyed
  begin_on (some rig) keyed = begin_tx DeviceId-discrete rig keyed

  abbrev pub end_on : Option DeviceId → List (DeviceId × ℕ) → List (DeviceId × ℕ)
  end_on none keyed = keyed
  end_on (some rig) keyed = end_tx DeviceId-discrete rig keyed

  unfoldable pub key_line : ℕ → p.Driver → Core p → Result Unit × Core p
  key_line id driver c =
      let rig = rig_of id c.live in
      let keyed = begin_on rig c.interlock in
      let r = p.driver.key driver in
      let live = record c.live { drivers = put id r.1 c.live.drivers } in
      elim (r.0) [
        | none ↦ (ok tt, say p (ptt_keyed id true) record c { live = live; interlock = keyed })
        | some e ↦
            (err (ptt e), evict_on_gone id e record c { live = live; interlock = end_on rig keyed })
      ]

  unfoldable pub unkey_line : ℕ → p.Driver → Core p → Result Unit × Core p
  unkey_line id driver c =
      let r = p.driver.unkey driver in
      let c1 = record c {
        live = record c.live { drivers = put id r.1 c.live.drivers };
        interlock = end_on (rig_of id c.live) c.interlock;
      } in
      elim (r.0) [
        | none ↦ (ok tt, say p (ptt_keyed id false) c1)
        | some e ↦ (err (ptt e), evict_on_gone id e c1)
      ]

  unfoldable pub key_ptt : ℕ → Bool → Core p → Result Unit × Core p
  key_ptt id keyed c =
      if has id c.live.tx_workers
      then (
        err (
            ptt (
              config (
                codes
                  "channel is in a mode; the TX worker keys PTT during transmit — use Transmit, not manual key"))),
        c,
      )
      else elim (at id c.live.drivers) [
        | none ↦ (err (ptt (config (codes "channel has no PTT configured"))), c)
        | some driver ↦ if keyed then key_line id driver c else unkey_line id driver c
      ]

  -- A job for the channel's worker.
  unfoldable pub hand_over : ℕ → TxHandle p → TxJob p.dsp → ℕ → Core p → Result ℕ × Core p
  hand_over id handle job tx_id c =
      let r = enqueue p.dsp job handle.worker in
      let c1 = record c {
        live = record c.live {
          tx_workers = put id record handle { worker = r.1 } c.live.tx_workers;
        };
      } in
      elim (r.0) [
        | none ↦ (ok tx_id, c1)
        | some back ↦ (err (ptt (config (codes "tx queue full"))), c1)
      ]

  -- A cycle of raw samples on the core's own thread. None if it has not returned.
  unfoldable pub raw_cycle :
      World
      → ℕ
      → List ℕ
      → AudioBinding p
      → PlaybackHandle
      → p.Driver
      → Core p
      → Option (Option PttError × Core p)
  raw_cycle w id payload b sink driver c =
      let timing = channel_ptt_timing id c.supervisor.channels in
      let burst : Burst = record {
        samples = samples_of payload;
        sample_rate = b.tx_rate;
        tx_delay = timing.0 * 1000000;
        tx_tail = timing.1 * 1000000;
      } in
      let begun = begin_tx DeviceId-discrete b.tx_dev c.interlock in
      elim (drive_tx_cycle p.driver w burst driver sink) [
        | none ↦ none
        | some (outcome, (last, played)) ↦ some (
          verdict outcome,
          record c {
            live = record c.live {
              sinks = put id played c.live.sinks;
              drivers = put id last c.live.drivers;
            };
            interlock = end_tx DeviceId-discrete b.tx_dev begun;
            log = c.log ++ (ptt_keyed id true ∷ ptt_keyed id false ∷ []);
          },
        )
      ]

  -- Without a sink, a binding or a driver nothing is sent: a simulation.
  unfoldable pub send_raw : World → ℕ → List ℕ → Core p → Option (Option PttError × Core p)
  send_raw w id payload c = elim (at id c.live.sinks) [
    | none ↦ some (none, c)
    | some sink ↦ elim (at id c.live.audio) [
      | none ↦ some (none, c)
      | some b ↦ elim (at id c.live.drivers) [
        | none ↦ some (none, c)
        | some driver ↦ raw_cycle w id payload b sink driver c
      ]
    ]
  ]

  unfoldable pub transmit : World → ℕ → List ℕ → ℕ → Core p → Option (Result ℕ × Core p)
  transmit w id payload tx_id c = elim (at id c.live.tx_workers) [
    | some handle ↦ some (
        hand_over id handle
          (frame_job p.dsp (payload_to_frame p.dsp (mode_of p id c) payload) tx_id) tx_id c)
    | none ↦ elim (send_raw w id payload (say p (transmit_started id tx_id) c)) [
      | none ↦ none
      | some (failure, c1) ↦
          let c2 = say p (transmit_complete id tx_id) c1 in
          some
            (elim failure [ none ↦ (ok tx_id, c2) | some e ↦ (err (ptt e), evict_on_gone id e c2) ])
    ]
  ]

  -- The picture's samples and their rate, or why it cannot be sent, come from the mode's builder.
  unfoldable pub transmit_image :
      ℕ → (Mode p → (List p.dsp.Sample × ℕ) ⊎ Text) → ℕ → Core p → Result ℕ × Core p
  transmit_image id build tx_id c = elim (at id c.live.tx_workers) [
    | none ↦ (err (picture (codes "channel has no active transmit worker")), c)
    | some handle ↦ elim (build (mode_of p id c)) [
      | inr e ↦ (err (picture e), c)
      | inl (samples, native_rate) ↦
          hand_over id handle (prebuilt_job p.dsp samples native_rate tx_id) tx_id c
    ]
  ]
