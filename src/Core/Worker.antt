-- ===== src/Core/Worker.antt =====
-- The transmit worker of a channel, crates/omnimodem/src/core/tx_worker.rs: its queue and the loop
-- of its thread. What the loop uses of the signal processing is an argument, and so is what other
-- threads do between its steps. The spectrum that a helper thread shows meanwhile is left out.
pub mod Cases
pub mod Answers
pub mod Line
pub mod Leased
pub mod Queue
pub mod Bytes
mod Tests
use omnimodem.Base.{
  ℕ, ◌*◌, Bool, true, false, not, ◌&&◌, ◌⊎◌, inl, inr, List, [], ◌∷◌, ◌++◌, map, Option, none, some,
  ltb, ◌==◌, if◌then◌else◌, length,
}
use omnimodem.Base.Text.{Text, codes}
use omnimodem.Ptt.Interlock.{begin_tx, end_tx}
use omnimodem.Ptt.Interlock
use omnimodem.Ptt.Lease.{may_transmit}
use omnimodem.Ptt.Driver.{PttDriver}
use omnimodem.Ptt.Sequence.{PlaybackHandle, TxCycleOutcome, done, World, Burst, drive_tx_cycle}
use omnimodem.Mode.Config.{ModeConfig, afsk1200}
use omnimodem.Core.Event.{
  TelemetryEvent, transmit_started, transmit_complete, transmit_failed, ptt_keyed, Frame, text,
  packet,
}

-- The signal processing: a modulator, which may change with each frame, the resampler, the burst
-- of a mode's RSID, and a sample times a gain as a 16-bit
-- number, and the text of bytes with the bad ones replaced.
pub record Dsp : Type 1 where
  pub Sample : Type 0
  pub Meta : Type 0
  pub no_meta : Meta
  pub Modulator : Type 0
  pub modulate : Frame Meta → Modulator → (Text ⊎ List Sample) × Modulator
  pub native_rate : Modulator → ℕ
  pub resample : ℕ → ℕ → List Sample → List Sample
  pub burst_for_mode : Text → Sample → ℕ → Option (List Sample)
  pub to_pcm : Sample → Sample → ℕ
  pub from_utf8_lossy : List ℕ → Text

abbrev pub tx_queue_depth : ℕ
tx_queue_depth = 32

-- Why the loop has ended.
pub data End : Type 0 where
  queue_closed : End
  was_cancelled : End
  cycle_ended : TxCycleOutcome → End

unfoldable pub after_cycle : TxCycleOutcome → Option End
after_cycle done = none
after_cycle o = some (cycle_ended o)

module _ (dsp : Dsp) where
  pub record PrebuiltAudio : Type 0 where
    pub samples : List dsp.Sample
    pub native_rate : ℕ

  pub record TxJob : Type 0 where
    pub frame : Frame dsp.Meta
    pub transmit_id : ℕ
    pub prebuilt : Option PrebuiltAudio

  unfoldable pub payload_to_frame : {F : Type 0} → ModeConfig F → List ℕ → Frame dsp.Meta
  payload_to_frame (afsk1200 tx) payload = record { payload = packet payload; meta = dsp.no_meta }
  payload_to_frame _ payload = record {
    payload = text (dsp.from_utf8_lossy payload);
    meta = dsp.no_meta;
  }

  -- A job that renders a frame, and one that plays samples.
  abbrev pub frame_job : Frame dsp.Meta → ℕ → TxJob
  frame_job frame id = record { frame = frame; transmit_id = id; prebuilt = none }

  abbrev pub prebuilt_job : List dsp.Sample → ℕ → ℕ → TxJob
  prebuilt_job samples native_rate id = record {
    frame = record { payload = text []; meta = dsp.no_meta };
    transmit_id = id;
    prebuilt = some record { samples = samples; native_rate = native_rate };
  }

  -- The sender's side. `receiving` is lost when the worker's thread has ended.
  pub record TxWorker : Type 0 where
    pub queue : List TxJob
    pub receiving : Bool
    pub cancel : Bool

  abbrev pub new_worker : TxWorker
  new_worker = record { queue = []; receiving = true; cancel = false }

  -- The job that comes back, if any.
  unfoldable pub enqueue : TxJob → TxWorker → Option TxJob × TxWorker
  enqueue job w =
      if w.receiving && ltb (length w.queue) tx_queue_depth
      then (none, record w { queue = w.queue ++ (job ∷ []) })
      else (some job, w)

  -- What the worker's thread owns and does not change. The times are in nanoseconds.
  pub record TxWorkerCfg (K : Type 0) : Type 0 where
    pub channel : ℕ
    pub rig : K
    pub rate : ℕ
    pub rsid : Option (Text × dsp.Sample)
    pub tx_delay : ℕ
    pub tx_tail : ℕ

  -- What the thread finds while it serves a job: the cancel flag, the gain, the leases before and
  -- after the wait for the slot, the course of the cycle, and the calls of other threads on the
  -- interlock during it.
  pub record Round (K : Type 0) : Type 0 where
    pub cancelled : Bool
    pub gain : dsp.Sample
    pub before : List (K × ℕ)
    pub after : List (K × ℕ)
    pub world : World
    pub meanwhile : List (Interlock.Op K)

  -- What the thread changes.
  pub record Thread (K S : Type 0) : Type 0 where
    pub modulator : dsp.Modulator
    pub ptt : S
    pub sink : PlaybackHandle
    pub keyed : List (K × ℕ)
    pub log : List TelemetryEvent

  -- The samples of a job and their rate, or why the mode cannot carry the frame.
  unfoldable pub render : TxJob → dsp.Modulator → (Text ⊎ (List dsp.Sample × ℕ)) × dsp.Modulator
  render job m = elim job.prebuilt [
    | some pb ↦ (inr (pb.samples, pb.native_rate), m)
    | none ↦
        let r = dsp.modulate job.frame m in
        elim (r.0) [ inl e ↦ (inl e, r.1) | inr s ↦ (inr (s, dsp.native_rate r.1), r.1) ]
  ]

  unfoldable pub at_rate : ℕ → ℕ → List dsp.Sample → List dsp.Sample
  at_rate rate native samples =
      if ltb 0 rate && not (native == rate) then dsp.resample native rate samples else samples

  unfoldable pub with_rsid : Option (Text × dsp.Sample) → ℕ → List dsp.Sample → List dsp.Sample
  with_rsid none rate samples = samples
  with_rsid (some (key, center)) rate samples =
      if ltb 0 rate
      then elim (dsp.burst_for_mode key center rate) [
        | some burst ↦ burst ++ samples
        | none ↦ samples
      ]
      else samples

  unfoldable pub burst_of : {K : Type 0} → TxWorkerCfg K → List dsp.Sample → ℕ → dsp.Sample → Burst
  burst_of cfg samples native gain = record {
    samples =
        map (λ s. dsp.to_pcm s gain)
          (with_rsid cfg.rsid cfg.rate (at_rate cfg.rate native samples));
    sample_rate = cfg.rate;
    tx_delay = cfg.tx_delay;
    tx_tail = cfg.tx_tail;
  }

  -- The lease of the rig is another channel's.
  unfoldable pub lease_blocked : {K : Type 0} → Discrete K → TxWorkerCfg K → List (K × ℕ) → Bool
  lease_blocked same cfg holders = not (may_transmit same cfg.rig cfg.channel holders)

  module _ {K S : Type 0} (same : Discrete K) (driver : PttDriver S) (cfg : TxWorkerCfg K) where
    abbrev pub say : List TelemetryEvent → Thread K S → Thread K S
    say events t = record t { log = t.log ++ events }

    -- The thread behind a cycle that left the line and the sink like this.
    abbrev pub aired : ℕ → Round K → Thread K S → S → PlaybackHandle → Thread K S
    aired id r t ptt sink = record {
      modulator = t.modulator;
      ptt = ptt;
      sink = sink;
      keyed = end_tx same cfg.rig (Interlock.run same r.meanwhile (begin_tx same cfg.rig t.keyed));
      log =
          t.log
          ++ (transmit_started cfg.channel id
              ∷ ptt_keyed cfg.channel true
              ∷ ptt_keyed cfg.channel false
              ∷ transmit_complete cfg.channel id
              ∷ []);
    }

    -- A job that has the lease. None if the cycle has not returned.
    unfoldable pub put_on_air : ℕ → Burst → Round K → Thread K S → Option (Option End × Thread K S)
    put_on_air id b r t = elim (drive_tx_cycle driver r.world b t.ptt t.sink) [
      | none ↦ none
      | some (outcome, (ptt, sink)) ↦ some (after_cycle outcome, aired id r t ptt sink)
    ]

    -- One turn of the loop; its end, if it does not go on.
    unfoldable pub serve : TxJob → Round K → Thread K S → Option (Option End × Thread K S)
    serve job r t =
        if r.cancelled
        then some (some was_cancelled, t)
        else let rendered = render job t.modulator in
          let t1 = record t { modulator = rendered.1 } in
          let id = job.transmit_id in
          elim (rendered.0) [
            | inl e ↦ some (
              none,
              say
                  (transmit_started cfg.channel id
                    ∷ transmit_failed cfg.channel id
                        (codes "cannot encode this message in this mode (" ++ (e ++ codes ")"))
                    ∷ transmit_complete cfg.channel id
                    ∷ [])
                  t1,
            )
            | inr (samples, native) ↦
                if lease_blocked same cfg r.before
                then some (
                  none,
                  say (transmit_started cfg.channel id ∷ transmit_complete cfg.channel id ∷ []) t1,
                )
                else if lease_blocked same cfg r.after
                then some (
                  none,
                  say (transmit_started cfg.channel id ∷ transmit_complete cfg.channel id ∷ []) t1,
                )
                else put_on_air id (burst_of cfg samples native r.gain) r t1
          ]

    -- The loop over the jobs that are received. None if a cycle has not returned.
    unfoldable pub run : List (TxJob × Round K) → Thread K S → Option (End × Thread K S)
    run [] t = some (queue_closed, t)
    run ((job, r) ∷ jobs) t = elim (serve job r t) [
      | none ↦ none
      | some (some e, t1) ↦ some (e, t1)
      | some (none, t1) ↦ run jobs t1
    ]
