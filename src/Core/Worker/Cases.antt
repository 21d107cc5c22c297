-- ===== src/Core/Worker/Cases.antt =====
-- One turn of the worker's loop, by the branch that it takes, and the runs of the loop.
use omnimodem.Base.{
  ℕ, ◌≡◌, true, false, inl, inr, List, [], ◌∷◌, ◌++◌, Option, none, some, All, Option-cases,
  Bool-cases, Sum-cases,
}
use omnimodem.Base.Text.{Text, codes}
use omnimodem.Ptt.Driver.{PttDriver}
use omnimodem.Core.Event.{TelemetryEvent, transmit_failed, transmit_started, transmit_complete}
use omnimodem.Core.Worker.{
  Dsp, TxJob, TxWorkerCfg, Round, Thread, End, was_cancelled, render, burst_of, lease_blocked,
  put_on_air, serve, run, queue_closed,
}

-- What holds of a result, if there is one.
abbrev pub Each : {A B : Type 0} → (A → B → Type 0) → Option (A × B) → Type 0
Each Q none = Unit
Each Q (some (a, b)) = Q a b

module _ (dsp : Dsp) {K S : Type 0} (same : Discrete K) (driver : PttDriver S)
    (cfg : TxWorkerCfg dsp K) where
  -- The thread after a job that is not put on the air.
  abbrev pub skipped : TxJob dsp → List TelemetryEvent → Thread dsp K S → Thread dsp K S
  skipped job events t = record t {
    modulator = (render dsp job t.modulator).1;
    log = t.log ++ events;
  }

  abbrev pub refusal : ℕ → Text → List TelemetryEvent
  refusal id e =
      transmit_started cfg.channel id
      ∷ transmit_failed cfg.channel id
          (codes "cannot encode this message in this mode (" ++ (e ++ codes ")"))
      ∷ transmit_complete cfg.channel id
      ∷ []

  pub serve_cases :
      (P : Option (Option (End) × Thread dsp K S) → Type 0) (job : TxJob dsp) (r : Round dsp K)
      (t : Thread dsp K S)
      → (r.cancelled ≡ true → P (some (some was_cancelled, t)))
      → ((e : Text) → P (some (none, skipped job (refusal job.transmit_id e) t)))
      → P (
          some (
            none,
            skipped job
                (transmit_started cfg.channel job.transmit_id
                  ∷ transmit_complete cfg.channel job.transmit_id
                  ∷ [])
                t,
          ))
      → ((samples : List dsp.Sample) (native : ℕ)
          → (render dsp job t.modulator).0 ≡ inr (samples, native)
          → lease_blocked dsp same cfg r.before ≡ false
          → lease_blocked dsp same cfg r.after ≡ false
          → P (
              put_on_air dsp same driver cfg job.transmit_id
                (burst_of dsp cfg samples native r.gain)
                r
                (record t { modulator = (render dsp job t.modulator).1 })))
      → P (serve dsp same driver cfg job r t)
  unfolding serve
  serve_cases P job r t cancelled refused held on_air = elim (Bool-cases r.cancelled) [
    | inl stop ↦ rw (stop, serve) (cancelled stop)
    | inr on ↦ elim (Sum-cases (render dsp job t.modulator).0) [
      | inl (e, bad) ↦ rw (on, serve, bad) (refused e)
      | inr ((samples, native), good) ↦ elim (Bool-cases (lease_blocked dsp same cfg r.before)) [
        | inl early ↦ rw (on, serve, good, early) held
        | inr free ↦ elim (Bool-cases (lease_blocked dsp same cfg r.after)) [
          | inl late ↦ rw (on, serve, good, free, late) held
          | inr leased ↦ rw (on, serve, good, free, leased) (on_air samples native good free leased)
        ]
      ]
    ]
  ]

  -- What every turn of the loop keeps, in a round that is as it says, the loop keeps: `Q none`
  -- while it goes on, `Q (some e)` when it has ended.
  pub run-keeps :
      (Q : Option End → Thread dsp K S → Type 0) (R : TxJob dsp × Round dsp K → Type 0)
      → ((t : Thread dsp K S) → Q none t → Q (some queue_closed) t)
      → ((job : TxJob dsp) (r : Round dsp K) (t : Thread dsp K S)
          → R (job, r)
          → Q none t
          → Each Q (serve dsp same driver cfg job r t))
      → (jobs : List (TxJob dsp × Round dsp K)) (t : Thread dsp K S) → All R jobs
      → Q none t
      → Each (λ e. Q (some e)) (run dsp same driver cfg jobs t)
  unfolding run
  run-keeps Q R closed step [] t all q = closed t q
  run-keeps Q R closed step ((job, r) ∷ jobs) t (here, all) q =
      let kept = step job r t here q in
      elim (Option-cases (serve dsp same driver cfg job r t)) [
        | inl none_yet ↦ rw (none_yet, run) tt
        | inr ((some e2, t2), served) ↦ rw (served, run) (rw served at kept)
        | inr ((none, t2), served) ↦
            rw (served, run) (run-keeps Q R closed step jobs t2 all (rw served at kept))
      ]
