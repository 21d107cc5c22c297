-- ===== src/Core/Worker/Answers.antt =====
-- What a client hears of the jobs that the worker takes from its queue.
use omnimodem.Base.{
  ℕ, ◌≡◌, ◌≢◌, refl, sym, ap, ◌∙◌, ◌⊎◌, inl, inr, List, [], ◌∷◌, ◌++◌, Option, none, some, arith,
  append_assoc, append-nil,
}
use omnimodem.Base.Text.{Text}
use omnimodem.Ptt.Driver.{PttDriver}
use omnimodem.Ptt.Sequence.{
  Burst, TxCycleOutcome, done, aborted, key_failed, submit_failed, unkey_failed,
}
use omnimodem.Ptt.Sequence.Cycle.{IsLong, keyed_once, drive_tx_cycle-keyed_once}
use omnimodem.Core.Event.{TelemetryEvent, transmit_started, transmit_complete}
use omnimodem.Core.Worker.{
  Dsp, TxJob, TxWorkerCfg, Round, Thread, End, was_cancelled, queue_closed, after_cycle, render,
  burst_of, put_on_air, aired, serve, run,
}
use omnimodem.Core.Worker.Cases.{serve_cases, refusal}

-- The events that open and close a transmission.
unfoldable pub marks : List TelemetryEvent → List TelemetryEvent
marks [] = []
marks (transmit_started c id ∷ log) = transmit_started c id ∷ marks log
marks (transmit_complete c id ∷ log) = transmit_complete c id ∷ marks log
marks (_ ∷ log) = marks log

marks-append : (xs ys : List TelemetryEvent) → marks (xs ++ ys) ≡ marks xs ++ marks ys
unfolding marks
marks-append [] ys = refl
marks-append (x ∷ xs) ys = ground (arith, marks-append xs ys)

after_cycle-open : (o : TxCycleOutcome) → after_cycle o ≢ some queue_closed
unfolding after_cycle
after_cycle-open done e = cc
after_cycle-open aborted e = cc
after_cycle-open (key_failed x) e = cc
after_cycle-open (submit_failed x) e = cc
after_cycle-open (unkey_failed x) e = cc

module _ (dsp : Dsp) {K S : Type 0} (same : Discrete K) (driver : PttDriver S)
    (cfg : TxWorkerCfg dsp K) where
  -- The clock of a round goes on until the deadlines of the cycle, if there is one.
  abbrev Lasts : Round dsp K → Text ⊎ (List dsp.Sample × ℕ) → Type 0
  Lasts r (inl e) = Unit
  Lasts r (inr (samples, native)) = IsLong r.world (burst_of dsp cfg samples native r.gain)

  abbrev pub IsTimely : List (TxJob dsp × Round dsp K) → dsp.Modulator → Type 0
  IsTimely [] m = Unit
  IsTimely ((job, r) ∷ jobs) m = Lasts r (render dsp job m).0 × IsTimely jobs (render dsp job m).1

  -- One pair of events for each job.
  unfoldable pub answers : List (TxJob dsp × Round dsp K) → List TelemetryEvent
  answers [] = []
  answers ((job, r) ∷ jobs) =
      transmit_started cfg.channel job.transmit_id
      ∷ transmit_complete cfg.channel job.transmit_id
      ∷ answers jobs

  -- A turn has returned: either it found the flag, or it has answered its job.
  abbrev Answers :
      TxJob dsp → Round dsp K → Thread dsp K S → Option (Option End × Thread dsp K S) → Type 0
  Answers job r t result =
      (result ≡ some (some was_cancelled, t))
      ⊎ ((e : Option End) × (t1 : Thread dsp K S) × (result ≡ some (e, t1))
          × (e ≢ some queue_closed)
          × (t1.modulator ≡ (render dsp job t.modulator).1)
          × (marks t1.log ≡ marks t.log ++ answers ((job, r) ∷ [])))

  serve-Answers :
      (job : TxJob dsp) (r : Round dsp K) (t : Thread dsp K S)
      → Lasts r (render dsp job t.modulator).0
      → Answers job r t (serve dsp same driver cfg job r t)
  unfolding marks answers put_on_air
  serve-Answers job r t lasts =
      serve_cases dsp same driver cfg (Answers job r t) job r t (λ stop. inl refl)
        (λ e. inr (
          none,
          _,
          refl,
          (λ p. cc),
          refl,
          marks-append t.log (refusal dsp same driver cfg job.transmit_id e),
        ))
        (inr (none, _, refl, (λ p. cc), refl, marks-append t.log _))
        (λ samples native good free leased.
          let b : Burst = burst_of dsp cfg samples native r.gain in
          let (o, k, returned) =
            drive_tx_cycle-keyed_once driver r.world b t.ptt t.sink (rw good at lasts) in
          let t1 : Thread dsp K S =
            aired dsp same driver cfg job.transmit_id r
              (record t { modulator = (render dsp job t.modulator).1 }) (keyed_once driver t.ptt)
              k in
          inr (
            after_cycle o,
            t1,
            rw (returned, put_on_air) refl,
            after_cycle-open o,
            refl,
            marks-append t.log _,
          ))

  -- Whatever the jobs, the modulator, the leases and the flag are, a loop whose clock reaches each
  -- cycle's deadlines returns, and it has taken a part of the jobs in order, each of which has
  -- got exactly one TransmitStarted and then its TransmitComplete; this part is all of them
  -- when the loop ends because its queue was closed.
  pub run-answers :
      (jobs : List (TxJob dsp × Round dsp K)) (t : Thread dsp K S)
      → IsTimely jobs t.modulator
      → (e : End) × (t1 : Thread dsp K S) × (taken dropped : List (TxJob dsp × Round dsp K)) × (run
            dsp same driver cfg jobs t
          ≡ some (e, t1))
        × (jobs ≡ taken ++ dropped)
        × (marks t1.log ≡ marks t.log ++ answers taken)
        × (e ≡ queue_closed → dropped ≡ [])
  unfolding run answers
  run-answers [] t timely =
      (queue_closed, t, [], [], refl, refl, sym (append-nil (marks t.log)), λ e. refl)
  run-answers ((job, r) ∷ jobs) t (lasts, timely) = elim (serve-Answers job r t lasts) [
    | inl cancelled ↦ (
      was_cancelled,
      t,
      [],
      (job, r) ∷ jobs,
      rw (cancelled, run) refl,
      refl,
      sym (append-nil (marks t.log)),
      (λ e. cc),
    )
    | inr (some e, t1, served, ended, same_modulator, marked) ↦ (
      e,
      t1,
      (job, r) ∷ [],
      jobs,
      rw (served, run) refl,
      refl,
      marked,
      (λ closed. absurd (ended (ap some closed))),
    )
    | inr (none, t1, served, ended, same_modulator, marked) ↦
        let (e, t2, taken, dropped, returned, split, marked2, all_taken) =
          run-answers jobs t1 (rw same_modulator timely) in
        (
          e,
          t2,
          (job, r) ∷ taken,
          dropped,
          rw (served, run) returned,
          ap (λ l. (job, r) ∷ l) split,
          marked2
              ∙ ap (λ l. l ++ answers taken) marked
              ∙ append_assoc (marks t.log) (answers ((job, r) ∷ [])) (answers taken),
          all_taken,
        )
  ]
