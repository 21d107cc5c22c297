-- ===== src/Core/Worker/Leased.antt =====
-- The worker of a channel whose rig another channel has leased.
use omnimodem.Base.{ℕ, ◌≡◌, ◌≢◌, refl, sym, ◌∙◌, true, false, List, Option, some, All}
use omnimodem.Ptt.Lease.{granted, acquire, may_transmit, by}
use omnimodem.Ptt.Lease
use omnimodem.Ptt.Lease.Exclusive.{acquire_excludes}
use omnimodem.Ptt.Driver.{PttDriver}
use omnimodem.Core.Worker.{Dsp, TxJob, TxWorkerCfg, Round, Thread, End, lease_blocked, run}
use omnimodem.Core.Worker.Cases.{serve_cases, Each, run-keeps}

true-false : true ≡ false → ⊥
true-false e = cc

module _ (dsp : Dsp) {K S : Type 0} (same : Discrete K) (driver : PttDriver S)
    (cfg : TxWorkerCfg dsp K) where
  -- Before the worker looks for the last time, a channel was granted the rig, and since then only
  -- other channels have called the registry.
  pub record IsLeasedTo (c : ℕ) (jr : TxJob dsp × Round dsp K) : Type 0 where
    pub holders : List (K × ℕ)
    pub calls : List (Lease.Op K)
    pub grant : (acquire same cfg.rig c holders).0 ≡ granted
    pub others : All (λ op. by op ≢ c) calls
    pub seen : jr.1.after ≡ Lease.run same calls (acquire same cfg.rig c holders).1

  leased-blocked :
      (c : ℕ) (jr : TxJob dsp × Round dsp K)
      → cfg.channel ≢ c
      → IsLeasedTo c jr
      → lease_blocked dsp same cfg jr.1.after ≡ true
  unfolding lease_blocked
  leased-blocked c jr ne l =
      let (own, foreign, refused) =
        acquire_excludes same cfg.rig c cfg.channel l.calls l.holders l.grant l.others ne in
      rw (l.seen, foreign) refl

  abbrev Untouched : Thread dsp K S → Option End → Thread dsp K S → Type 0
  Untouched t0 e t = (t.ptt ≡ t0.ptt) × (t.sink ≡ t0.sink) × (t.keyed ≡ t0.keyed)

  -- While another channel holds the lease of its rig, also if it took it during the wait for the
  -- slot, the worker puts nothing on the air: whatever it takes from its queue, the line, the sink
  -- and the interlock stay as they were.
  pub run-leased :
      (c : ℕ) (jobs : List (TxJob dsp × Round dsp K)) (t : Thread dsp K S) (e : End)
      (t1 : Thread dsp K S)
      → cfg.channel ≢ c
      → All (IsLeasedTo c) jobs
      → run dsp same driver cfg jobs t ≡ some (e, t1)
      → (t1.ptt ≡ t.ptt) × (t1.sink ≡ t.sink) × (t1.keyed ≡ t.keyed)
  run-leased c jobs t e t1 ne leased ran = rw ran at (
      run-keeps dsp same driver cfg (Untouched t) (IsLeasedTo c) (λ u k. k)
        (λ job r u here k.
          serve_cases dsp same driver cfg (Each (Untouched t)) job r u (λ stop. k) (λ reason. k) k
            (λ samples native good free leased_out.
              absurd (true-false (sym (leased-blocked c (job, r) ne here) ∙ leased_out))))
        jobs t leased (refl, refl, refl))
