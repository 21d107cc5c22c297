-- ===== src/Core/Command/Sent.antt =====
-- Keying and transmitting, and the devices of the workers.
use omnimodem.Base.{
  ℕ, ◌*◌, ◌≡◌, Bool, ◌⊎◌, List, Option, none, some, inl, inr, Bool-cases, Option-cases, Sum-cases,
}
use omnimodem.Base.Text.{Text}
use omnimodem.Ptt.Sequence.{PlaybackHandle, World, Burst, drive_tx_cycle}
use omnimodem.Supervisor.{channel_ptt_timing}
use omnimodem.Core.Event.{transmit_started}
use omnimodem.Core.Worker.{TxJob, enqueue}
use omnimodem.Core.Live.{Parts, Mode, AudioBinding, TxHandle, Core, say}
use omnimodem.Core.Audio.{at, has, mode_of}
use omnimodem.Core.Transmit.{
  key_line, unkey_line, key_ptt, hand_over, raw_cycle, send_raw, transmit, transmit_image,
  samples_of,
}
use omnimodem.Core.Command.Rigs.{FitsTx, Rigs, with_tx}
use omnimodem.Core.Command.Kept.{evict-Rigs}

module _ (p : Parts) where
  -- The state that a command leaves, if it has returned.
  abbrev pub After : {A : Type 0} → Option (A × Core p) → Type 0
  After none = Unit
  After (some (a, c)) = Rigs p c.live

  key_line-Rigs :
      (id : ℕ) (driver : p.Driver) (c : Core p)
      → Rigs p c.live
      → Rigs p (key_line p id driver c).1.live
  unfolding key_line say
  key_line-Rigs id driver c h = elim (Option-cases (p.driver.key driver).0) [
    | inl keyed ↦ rw (keyed, key_line) h
    | inr (e, failed) ↦ rw (failed, key_line) (evict-Rigs p id e _ h)
  ]

  unkey_line-Rigs :
      (id : ℕ) (driver : p.Driver) (c : Core p)
      → Rigs p c.live
      → Rigs p (unkey_line p id driver c).1.live
  unfolding unkey_line say
  unkey_line-Rigs id driver c h = elim (Option-cases (p.driver.unkey driver).0) [
    | inl unkeyed ↦ rw (unkeyed, unkey_line) h
    | inr (e, failed) ↦ rw (failed, unkey_line) (evict-Rigs p id e _ h)
  ]

  pub key_ptt-Rigs :
      (id : ℕ) (keyed : Bool) (c : Core p) → Rigs p c.live → Rigs p (key_ptt p id keyed c).1.live
  unfolding key_ptt
  key_ptt-Rigs id keyed c h = elim (Bool-cases (has id c.live.tx_workers)) [
    | inl moded ↦ rw (moded, key_ptt) h
    | inr free ↦ elim (Option-cases (at id c.live.drivers)) [
      | inl missing ↦ rw (free, key_ptt, missing) h
      | inr (driver, there) ↦ elim (Bool-cases keyed) [
        | inl on ↦ rw (free, key_ptt, there, on) (key_line-Rigs id driver c h)
        | inr off ↦ rw (free, key_ptt, there, off) (unkey_line-Rigs id driver c h)
      ]
    ]
  ]

  hand_over-Rigs :
      (id : ℕ) (worker : TxHandle p) (job : TxJob p.dsp) (tx_id : ℕ) (c : Core p)
      → at id c.live.tx_workers ≡ some worker
      → Rigs p c.live
      → Rigs p (hand_over p id worker job tx_id c).1.live
  unfolding hand_over
  hand_over-Rigs id worker job tx_id c there h =
      let r = enqueue p.dsp job worker.worker in
      let kept =
        with_tx p id c.live.rx_workers c.live.tx_workers c.live.audio h
          record worker { worker = r.1 } (same_rig (at id c.live.audio) (rw there at (h id).1)) in
      elim (Option-cases r.0) [
        | inl queued ↦ rw (queued, hand_over) kept
        | inr (back, full) ↦ rw (full, hand_over) kept
      ]
    where
      same_rig :
          (audio : Option (AudioBinding p))
          → FitsTx p (some worker) audio
          → FitsTx p (some (record worker { worker = (enqueue p.dsp job worker.worker).1 })) audio
      same_rig none f = f
      same_rig (some b) f = f

  raw_cycle-Rigs :
      (w : World) (id : ℕ) (payload : List ℕ) (b : AudioBinding p) (sink : PlaybackHandle)
      (driver : p.Driver) (c : Core p)
      → Rigs p c.live
      → After (raw_cycle p w id payload b sink driver c)
  unfolding raw_cycle
  raw_cycle-Rigs w id payload b sink driver c h =
      let timing : ℕ × ℕ = channel_ptt_timing id c.supervisor.channels in
      let burst : Burst = record {
        samples = samples_of payload;
        sample_rate = b.tx_rate;
        tx_delay = timing.0 * 1000000;
        tx_tail = timing.1 * 1000000;
      } in
      elim (Option-cases (drive_tx_cycle p.driver w burst driver sink)) [
        | inl going ↦ rw (going, raw_cycle) tt
        | inr (r, ended) ↦ rw (ended, raw_cycle) h
      ]

  send_raw-Rigs :
      (w : World) (id : ℕ) (payload : List ℕ) (c : Core p)
      → Rigs p c.live
      → After (send_raw p w id payload c)
  unfolding send_raw
  send_raw-Rigs w id payload c h = elim (Option-cases (at id c.live.sinks)) [
    | inl no_sink ↦ rw (no_sink, send_raw) h
    | inr (sink, e_sink) ↦ elim (Option-cases (at id c.live.audio)) [
      | inl unbound ↦ rw (e_sink, send_raw, unbound) h
      | inr (b, bound_to) ↦ elim (Option-cases (at id c.live.drivers)) [
        | inl no_driver ↦ rw (e_sink, send_raw, bound_to, no_driver) h
        | inr (driver, e_driver) ↦
            rw (e_sink, send_raw, bound_to, e_driver)
              (raw_cycle-Rigs w id payload b sink driver c h)
      ]
    ]
  ]

  pub transmit-Rigs :
      (w : World) (id : ℕ) (payload : List ℕ) (tx_id : ℕ) (c : Core p)
      → Rigs p c.live
      → After (transmit p w id payload tx_id c)
  unfolding transmit say
  transmit-Rigs w id payload tx_id c h = elim (Option-cases (at id c.live.tx_workers)) [
    | inr (worker, there) ↦ rw (there, transmit) (hand_over-Rigs id worker _ tx_id c there h)
    | inl missing ↦
        let begun : Core p = say p (transmit_started id tx_id) c in
        let sent = send_raw-Rigs w id payload begun h in
        elim (Option-cases (send_raw p w id payload begun)) [
          | inl going ↦ rw (missing, transmit, going) tt
          | inr ((none, c1), returned) ↦ rw (missing, transmit, returned) (rw returned at sent)
          | inr ((some e, c1), returned) ↦
              rw (missing, transmit, returned) (evict-Rigs p id e _ (rw returned at sent))
        ]
  ]

  pub image-Rigs :
      (id : ℕ) (build : Mode p → (List p.dsp.Sample × ℕ) ⊎ Text) (tx_id : ℕ) (c : Core p)
      → Rigs p c.live
      → Rigs p (transmit_image p id build tx_id c).1.live
  unfolding transmit_image
  image-Rigs id build tx_id c h = elim (Option-cases (at id c.live.tx_workers)) [
    | inl missing ↦ rw (missing, transmit_image) h
    | inr (worker, there) ↦ elim (Sum-cases (build (mode_of p id c))) [
      | inr (e, refused) ↦ rw (there, transmit_image, refused) h
      | inl ((samples, rate), built) ↦
          rw (there, transmit_image, built) (hand_over-Rigs id worker _ tx_id c there h)
    ]
  ]
