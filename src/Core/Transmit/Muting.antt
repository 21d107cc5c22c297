-- ===== src/Core/Transmit/Muting.antt =====
-- The interlock over a transmission on the core's own thread, and over a key that fails.
use omnimodem.Base.{
  ℕ, ◌+◌, ◌-◌, ◌*◌, ◌^◌, ◌<◌, ◌≡◌, ap, ◌∙◌, true, List, Option, none, some, arith, inl, inr,
  Bool-cases, Option-cases,
}
use omnimodem.Base.Store.{get}
use omnimodem.Ids.{DeviceId, DeviceId-discrete}
use omnimodem.Ptt.Interlock.{begin_tx, end_tx}
use omnimodem.Ptt.Interlock.Depth.{held, begin_self, end_self, begin_ne, end_ne}
use omnimodem.Ptt.Driver.{PttError, device_gone, permission_denied, busy, config, unsupported, io}
use omnimodem.Ptt.Sequence.{PlaybackHandle, World, Burst, drive_tx_cycle}
use omnimodem.Supervisor.{channel_ptt_timing}
use omnimodem.Core.Error.{CoreError, Result, err}
use omnimodem.Core.Event.{transmit_started}
use omnimodem.Core.Worker.{TxJob, enqueue}
use omnimodem.Core.Live.{Parts, AudioBinding, TxHandle, Core, say}
use omnimodem.Core.Audio.{at, has}
use omnimodem.Core.Transmit.{
  samples_of, evict_on_gone, rig_of, begin_on, end_on, key_line, key_ptt, hand_over, raw_cycle,
  send_raw, transmit,
}

begin_end :
    (rig dev : DeviceId) (n : ℕ) (keyed : List (DeviceId × ℕ))
    → n + 1 < 2 ^ 32
    → get DeviceId-discrete dev keyed ≡ held n
    → get DeviceId-discrete dev
        (end_tx DeviceId-discrete rig (begin_tx DeviceId-discrete rig keyed))
      ≡ held n
begin_end rig dev n keyed few h = elim (DeviceId-discrete rig dev) [
  | yes e ↦ rw e (
      end_self DeviceId-discrete dev (n + 1) _ (begin_self DeviceId-discrete dev n keyed few h)
      ∙ ap held (minus_one n))
  | no ne ↦ end_ne DeviceId-discrete rig dev _ ne ∙ begin_ne DeviceId-discrete rig dev keyed ne ∙ h
]
  where
    minus_one : (n : ℕ) → n + 1 - 1 ≡ n
    minus_one n = omega arith

module _ (p : Parts) where
  -- What the interlock counts for a device.
  abbrev pub Counts : DeviceId → ℕ → Core p → Type 0
  Counts dev n c = get DeviceId-discrete dev c.interlock ≡ held n

  abbrev After : {A : Type 0} → DeviceId → ℕ → Option (A × Core p) → Type 0
  After dev n none = Unit
  After dev n (some (a, c)) = Counts dev n c

  evict-Counts :
      (id : ℕ) (e : PttError) (c : Core p) (dev : DeviceId) (n : ℕ)
      → Counts dev n c
      → Counts dev n (evict_on_gone p id e c)
  unfolding evict_on_gone
  evict-Counts id (device_gone d) c dev n h = h
  evict-Counts id (permission_denied d) c dev n h = h
  evict-Counts id (busy d) c dev n h = h
  evict-Counts id (config d) c dev n h = h
  evict-Counts id unsupported c dev n h = h
  evict-Counts id (io d) c dev n h = h

  hand_over-Counts :
      (id : ℕ) (worker : TxHandle p) (job : TxJob p.dsp) (tx_id : ℕ) (c : Core p) (dev : DeviceId)
      (n : ℕ)
      → Counts dev n c
      → Counts dev n (hand_over p id worker job tx_id c).1
  unfolding hand_over
  hand_over-Counts id worker job tx_id c dev n h =
      elim (Option-cases (enqueue p.dsp job worker.worker).0) [
        | inl queued ↦ rw (queued, hand_over) h
        | inr (back, full) ↦ rw (full, hand_over) h
      ]

  raw_cycle-Counts :
      (w : World) (id : ℕ) (payload : List ℕ) (b : AudioBinding p) (sink : PlaybackHandle)
      (driver : p.Driver) (c : Core p) (dev : DeviceId) (n : ℕ)
      → n + 1 < 2 ^ 32
      → Counts dev n c
      → After dev n (raw_cycle p w id payload b sink driver c)
  unfolding raw_cycle
  raw_cycle-Counts w id payload b sink driver c dev n few h =
      let timing : ℕ × ℕ = channel_ptt_timing id c.supervisor.channels in
      let burst : Burst = record {
        samples = samples_of payload;
        sample_rate = b.tx_rate;
        tx_delay = timing.0 * 1000000;
        tx_tail = timing.1 * 1000000;
      } in
      elim (Option-cases (drive_tx_cycle p.driver w burst driver sink)) [
        | inl going ↦ rw (going, raw_cycle) tt
        | inr (r, ended) ↦ rw (ended, raw_cycle) (begin_end b.tx_dev dev n c.interlock few h)
      ]

  send_raw-Counts :
      (w : World) (id : ℕ) (payload : List ℕ) (c : Core p) (dev : DeviceId) (n : ℕ)
      → n + 1 < 2 ^ 32
      → Counts dev n c
      → After dev n (send_raw p w id payload c)
  unfolding send_raw
  send_raw-Counts w id payload c dev n few h = elim (Option-cases (at id c.live.sinks)) [
    | inl no_sink ↦ rw (no_sink, send_raw) h
    | inr (sink, e_sink) ↦ elim (Option-cases (at id c.live.audio)) [
      | inl unbound ↦ rw (e_sink, send_raw, unbound) h
      | inr (b, bound_to) ↦ elim (Option-cases (at id c.live.drivers)) [
        | inl no_driver ↦ rw (e_sink, send_raw, bound_to, no_driver) h
        | inr (driver, e_driver) ↦
            rw (e_sink, send_raw, bound_to, e_driver)
              (raw_cycle-Counts w id payload b sink driver c dev n few h)
      ]
    ]
  ]

  transmit-After :
      (w : World) (id : ℕ) (payload : List ℕ) (tx_id : ℕ) (c : Core p) (dev : DeviceId) (n : ℕ)
      → n + 1 < 2 ^ 32
      → Counts dev n c
      → After dev n (transmit p w id payload tx_id c)
  unfolding transmit say
  transmit-After w id payload tx_id c dev n few h = elim (Option-cases (at id c.live.tx_workers)) [
    | inr (worker, there) ↦ rw (there, transmit) (hand_over-Counts id worker _ tx_id c dev n h)
    | inl missing ↦
        let begun : Core p = say p (transmit_started id tx_id) c in
        let sent = send_raw-Counts w id payload begun dev n few h in
        elim (Option-cases (send_raw p w id payload begun)) [
          | inl going ↦ rw (missing, transmit, going) tt
          | inr ((none, c1), returned) ↦ rw (missing, transmit, returned) (rw returned at sent)
          | inr ((some e, c1), returned) ↦
              rw (missing, transmit, returned) (evict-Counts id e _ dev n (rw returned at sent))
        ]
  ]

  -- However a transmission ends, with its worker, in a cycle on the core's own thread that succeeds
  -- or fails, or simulated, the interlock counts for every device what it counted before, as long
  -- as that is not the last count of its type.
  pub transmit-Counts :
      (w : World) (id : ℕ) (payload : List ℕ) (tx_id : ℕ) (c c1 : Core p) (r : Result ℕ)
      (dev : DeviceId) (n : ℕ)
      → n + 1 < 2 ^ 32
      → get DeviceId-discrete dev c.interlock ≡ held n
      → transmit p w id payload tx_id c ≡ some (r, c1)
      → get DeviceId-discrete dev c1.interlock ≡ held n
  transmit-Counts w id payload tx_id c c1 r dev n few h sent =
      rw sent at (transmit-After w id payload tx_id c dev n few h)

  begin_end_on :
      (rig : Option DeviceId) (dev : DeviceId) (n : ℕ) (keyed : List (DeviceId × ℕ))
      → n + 1 < 2 ^ 32
      → get DeviceId-discrete dev keyed ≡ held n
      → get DeviceId-discrete dev (end_on p rig (begin_on p rig keyed)) ≡ held n
  begin_end_on none dev n keyed few h = h
  begin_end_on (some rig) dev n keyed few h = begin_end rig dev n keyed few h

  key_line-failed :
      (id : ℕ) (driver : p.Driver) (c : Core p) (e : CoreError) (dev : DeviceId) (n : ℕ)
      → n + 1 < 2 ^ 32
      → Counts dev n c
      → (key_line p id driver c).0 ≡ err e
      → Counts dev n (key_line p id driver c).1
  unfolding key_line
  key_line-failed id driver c e dev n few h failed = elim (Option-cases (p.driver.key driver).0) [
    | inl keyed ↦ cc (rw (keyed, key_line) at failed)
    | inr (e1, refused) ↦
        rw (refused, key_line)
          (evict-Counts id e1 _ dev n (begin_end_on (rig_of p id c.live) dev n c.interlock few h))
  ]

  -- A manual key that is answered with an error, whether the channel has a worker, has no driver,
  -- or its driver fails, leaves the interlock's count of every device as it was, as long as that
  -- is not the last count of its type.
  pub key_ptt-failed :
      (id : ℕ) (c : Core p) (e : CoreError) (dev : DeviceId) (n : ℕ)
      → n + 1 < 2 ^ 32
      → get DeviceId-discrete dev c.interlock ≡ held n
      → (key_ptt p id true c).0 ≡ err e
      → get DeviceId-discrete dev (key_ptt p id true c).1.interlock ≡ held n
  unfolding key_ptt
  key_ptt-failed id c e dev n few h failed = elim (Bool-cases (has id c.live.tx_workers)) [
    | inl moded ↦ rw (moded, key_ptt) h
    | inr free ↦ elim (Option-cases (at id c.live.drivers)) [
      | inl missing ↦ rw (free, key_ptt, missing) h
      | inr (driver, there) ↦
          rw (free, key_ptt, there)
            (key_line-failed id driver c e dev n few h (rw (free, key_ptt, there) at failed))
    ]
  ]
