-- ===== src/Core/Worker/Line.antt =====
-- The transmitter's line, the interlock and the lease over the worker's loop.
use omnimodem.Base.{
  ℕ, ◌+◌, ◌-◌, ◌^◌, ◌<◌, ◌≡◌, refl, sym, ap, ◌∙◌, Bool, true, false, inl, inr, List, [], ◌∷◌,
  Option, none, some, arith, All, length, Option-cases,
}
use omnimodem.Base.Store.{get}
use omnimodem.Ptt.Interlock.{begin_tx}
use omnimodem.Ptt.Interlock.Depth.{held, depth, begin_self, end_self, run_counts}
use omnimodem.Ptt.Driver.{PttDriver}
use omnimodem.Ptt.Sequence.{
  drive_tx_cycle, Burst, TxCycleOutcome, done, aborted, key_failed, submit_failed, unkey_failed,
}
use omnimodem.Ptt.Sequence.Done.{drive_tx_cycle-IsPlayed}
use omnimodem.Core.Worker.{
  Dsp, TxJob, TxWorkerCfg, Round, Thread, End, cycle_ended, was_cancelled, queue_closed,
  after_cycle, render, burst_of, put_on_air, serve, run,
}
use omnimodem.Core.Worker.Cases.{serve_cases, Each, run-keeps}

-- The loop did not end in a cycle that failed or was aborted.
abbrev pub is_clean : End → Bool
is_clean queue_closed = true
is_clean was_cancelled = true
is_clean (cycle_ended o) = false

after_cycle-none : (o : TxCycleOutcome) → after_cycle o ≡ none → o ≡ done
unfolding after_cycle
after_cycle-none done e = refl
after_cycle-none aborted e = cc
after_cycle-none (key_failed x) e = cc
after_cycle-none (submit_failed x) e = cc
after_cycle-none (unkey_failed x) e = cc

after_cycle-some : (o : TxCycleOutcome) (e : End) → after_cycle o ≡ some e → is_clean e ≡ false
unfolding after_cycle
after_cycle-some done e h = cc
after_cycle-some aborted e h = cc
after_cycle-some (key_failed x) e h = cc
after_cycle-some (submit_failed x) e h = cc
after_cycle-some (unkey_failed x) e h = cc

false-true : false ≡ true → ⊥
false-true e = cc

module _ (dsp : Dsp) {K S : Type 0} (same : Discrete K) (driver : PttDriver S)
    (cfg : TxWorkerCfg dsp K) where
  -- The line when a turn has been taken: open, unless the loop ends by a cycle's failure.
  abbrev Open : (S → Type 0) → Option End → Thread dsp K S → Type 0
  Open Off none t = Off t.ptt
  Open Off (some e) t = is_clean e ≡ true → Off t.ptt

  aired-Open :
      (Off : S → Type 0)
      → ((p : S) → (driver.unkey p).0 ≡ none → Off (driver.unkey p).1)
      → (id : ℕ) (b : Burst) (r : Round dsp K) (t : Thread dsp K S)
      → Each (Open Off) (put_on_air dsp same driver cfg id b r t)
  unfolding put_on_air
  aired-Open Off releases id b r t =
      elim (Option-cases (drive_tx_cycle driver r.world b t.ptt t.sink)) [
        | inl going ↦ rw (going, put_on_air) tt
        | inr ((o, (ptt, sink)), ended) ↦
            rw (ended, put_on_air)
              (elim (Option-cases (after_cycle o)) [
                | inl on ↦
                    let played =
                      drive_tx_cycle-IsPlayed driver r.world b t.ptt ptt t.sink sink
                        (ended ∙ ap (λ x. some (x, (ptt, sink))) (after_cycle-none o on)) in
                    rw (on, played.was_left) (releases (driver.key t.ptt).1 played.was_released)
                | inr (e, over) ↦
                    rw over (λ clean. absurd (false-true (sym (after_cycle-some o e over) ∙ clean)))
              ])
      ]

  serve-Open :
      (Off : S → Type 0)
      → ((p : S) → (driver.unkey p).0 ≡ none → Off (driver.unkey p).1)
      → (job : TxJob dsp) (r : Round dsp K) (t : Thread dsp K S) → Off t.ptt
      → Each (Open Off) (serve dsp same driver cfg job r t)
  serve-Open Off releases job r t off =
      serve_cases dsp same driver cfg (Each (Open Off)) job r t (λ stop clean. off) (λ e. off) off
        (λ samples native good free leased. aired-Open Off releases job.transmit_id _ r _)

  -- Where an unkey without an error leaves the line open, the worker that finds it open takes each
  -- further job, and ends on a cancel or on a closed queue, with the line open again: only a cycle
  -- that failed or was aborted, which ends the loop, can leave it otherwise.
  pub run-released :
      (Off : S → Type 0)
      → ((p : S) → (driver.unkey p).0 ≡ none → Off (driver.unkey p).1)
      → (jobs : List (TxJob dsp × Round dsp K)) (t : Thread dsp K S) (e : End) (t1 : Thread dsp K S)
      → Off t.ptt
      → run dsp same driver cfg jobs t ≡ some (e, t1)
      → is_clean e ≡ true
      → Off t1.ptt
  run-released Off releases jobs t e t1 off h clean =
      (rw h at (
          run-keeps dsp same driver cfg (Open Off) (λ j. Unit) (λ u idle clean2. idle)
            (λ job r u here idle. serve-Open Off releases job r u idle) jobs t (all_rounds jobs)
            off))
        clean
    where
      all_rounds : (js : List (TxJob dsp × Round dsp K)) → All (λ j. Unit {0}) js
      all_rounds [] = tt
      all_rounds (j ∷ js) = (tt, all_rounds js)

  -- The other threads end what they begin on the rig while this one keys it.
  abbrev pub IsBalanced : ℕ → TxJob dsp × Round dsp K → Type 0
  IsBalanced n (job, r) =
      (depth same cfg.rig (n + 1) r.meanwhile ≡ n + 1) × (n + 1 + length r.meanwhile < 2 ^ 32)

  abbrev Holds : ℕ → Option End → Thread dsp K S → Type 0
  Holds n e t = get same cfg.rig t.keyed ≡ held n

  aired-Holds :
      (n id : ℕ) (b : Burst) (r : Round dsp K) (t : Thread dsp K S)
      → (depth same cfg.rig (n + 1) r.meanwhile ≡ n + 1) × (n + 1 + length r.meanwhile < 2 ^ 32)
      → get same cfg.rig t.keyed ≡ held n
      → Each (Holds n) (put_on_air dsp same driver cfg id b r t)
  unfolding put_on_air
  aired-Holds n id b r t (balanced, few) h =
      elim (Option-cases (drive_tx_cycle driver r.world b t.ptt t.sink)) [
        | inl going ↦ rw (going, put_on_air) tt
        | inr ((o, (ptt, sink)), ended) ↦
            rw (ended, put_on_air)
              (end_self same cfg.rig (n + 1) _ (
                  run_counts same cfg.rig (n + 1) r.meanwhile (begin_tx same cfg.rig t.keyed) few
                    (begin_self same cfg.rig n t.keyed (omega arith) h)
                  ∙ ap held balanced)
                ∙ ap held (minus_one n))
      ]
    where
      minus_one : (n : ℕ) → n + 1 - 1 ≡ n
      minus_one n = omega arith

  -- If other threads end on the rig what they begin there during a cycle, and the counter of the
  -- rig is far from its bound, the loop ends with the interlock's count for the rig at what it
  -- was, on every path, also when a cycle fails.
  pub run-unmuted :
      (n : ℕ) (jobs : List (TxJob dsp × Round dsp K)) (t : Thread dsp K S) (e : End)
      (t1 : Thread dsp K S)
      → All (IsBalanced n) jobs
      → get same cfg.rig t.keyed ≡ held n
      → run dsp same driver cfg jobs t ≡ some (e, t1)
      → get same cfg.rig t1.keyed ≡ held n
  run-unmuted n jobs t e t1 balanced h ran = rw ran at (
      run-keeps dsp same driver cfg (Holds n) (IsBalanced n) (λ u k. k)
        (λ job r u here k.
          serve_cases dsp same driver cfg (Each (Holds n)) job r u (λ stop. k) (λ reason. k) k
            (λ samples native good free leased.
              aired-Holds n job.transmit_id (burst_of dsp cfg samples native r.gain) r
                (record u { modulator = (render dsp job u.modulator).1 }) here k))
        jobs t balanced h)
