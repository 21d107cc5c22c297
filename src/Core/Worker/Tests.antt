-- ===== src/Core/Worker/Tests.antt =====
-- The worker over a signal processing of numbers, with the test driver.
use native.Mathlib.Decide.{ℕ_discrete}
use omnimodem.Base.{
  ℕ, ◌+◌, ◌≤◌, ◌<◌, All, ◌^◌, ◌≡◌, refl, true, false, List, [], ◌∷◌, ◌++◌, none, some, arith,
  length, replicate,
}
use omnimodem.Base.Text.{codes}
use omnimodem.Base.Store.{get, insert, remove}
use omnimodem.Ptt.Interlock.{begin_tx, end_tx, begin, end}
use omnimodem.Ptt.Interlock
use omnimodem.Ptt.Interlock.Depth.{depth}
use omnimodem.Ptt.Lease.{acquire, may_transmit, releases, acquires}
use omnimodem.Ptt.Lease
use omnimodem.Ptt.Driver.{MockPtt, new_mock, fail_key, mock_driver, mock_key, mock_unkey, io}
use omnimodem.Ptt.Sequence.{
  PlaybackHandle, submit, key_failed, wait, sleep_cancellable, drain, World, expected_airtime,
  finish, hold_tail, play, drive_tx_cycle, Look,
}
use omnimodem.Ptt.Sequence.Cycle.{reaches, polls_reach}
use omnimodem.Core.Event.{
  Frame, packet, text, transmit_started, transmit_complete, transmit_failed, ptt_keyed,
}
use omnimodem.Core.Worker.{
  TxJob, frame_job, prebuilt_job, new_worker, enqueue, TxWorkerCfg, Round, Thread, End,
  queue_closed, cycle_ended, after_cycle, render, at_rate, with_rsid, burst_of, lease_blocked,
  put_on_air, serve, run, tx_queue_depth,
}
use omnimodem.Core.Worker.Bytes.{byte_dsp}
use omnimodem.Core.Worker.Answers.{marks, answers, IsTimely, run-answers}
use omnimodem.Core.Worker.Line.{run-released, run-unmuted}
use omnimodem.Core.Worker.Leased.{IsLeasedTo, run-leased}
use omnimodem.Core.Worker.Queue.{enqueue_all, enqueue_all-take}

abbrev cfg : TxWorkerCfg byte_dsp ℕ
cfg = record {
  channel = 4;
  rig = 9;
  rate = 48000;
  rsid = some (codes "cw", 7);
  tx_delay = 10;
  tx_tail = 0;
}

abbrev calm : ℕ → Look
calm t = record { cancelled = false; now = t }

abbrev world : World
world = record {
  lead_entry = calm 0;
  lead_looks = calm 11 ∷ [];
  start = 20;
  polls = record { cancelled = false; drained = 9; elapsed = 200000; now = 900000000 } ∷ [];
  tail_entry = calm 900000000;
  tail_looks = calm 900000000 ∷ [];
}

abbrev round : Round byte_dsp ℕ
round = record {
  cancelled = false;
  gain = 1;
  before = [];
  after = [];
  world = world;
  meanwhile = begin 9 ∷ end 9 ∷ [];
}

abbrev packet_of : List ℕ → Frame Unit
packet_of bs = record { payload = packet bs; meta = tt }

abbrev jobs : List (TxJob byte_dsp × Round byte_dsp ℕ)
jobs =
    (frame_job byte_dsp (packet_of (5 ∷ 6 ∷ [])) 1, round)
    ∷ (frame_job byte_dsp (record { payload = text []; meta = tt }) 2, round)
    ∷ (prebuilt_job byte_dsp (8 ∷ []) 48000 3, round)
    ∷ []

abbrev sink : PlaybackHandle
sink = record { queued = []; submitted = 0; drained = 0; closed = none }

abbrev thread : Thread byte_dsp ℕ MockPtt
thread = record { modulator = tt; ptt = new_mock; sink = sink; keyed = []; log = [] }

abbrev last : Thread byte_dsp ℕ MockPtt
last = record {
  modulator = tt;
  ptt = record new_mock { keys = 2; unkeys = 2 };
  sink = record sink { queued = (7 ∷ 5 ∷ 6 ∷ 5 ∷ 6 ∷ []) ∷ (7 ∷ 8 ∷ []) ∷ []; submitted = 7 };
  keyed = [];
  log =
      transmit_started 4 1
      ∷ ptt_keyed 4 true
      ∷ ptt_keyed 4 false
      ∷ transmit_complete 4 1
      ∷ transmit_started 4 2
      ∷ transmit_failed 4 2 (codes "cannot encode this message in this mode (unsupported)")
      ∷ transmit_complete 4 2
      ∷ transmit_started 4 3
      ∷ ptt_keyed 4 true
      ∷ ptt_keyed 4 false
      ∷ transmit_complete 4 3
      ∷ [];
}

ran : run byte_dsp ℕ_discrete mock_driver cfg jobs thread ≡ some (queue_closed, last)
unfolding run serve put_on_air render at_rate with_rsid burst_of lease_blocked may_transmit begin_tx
    end_tx Interlock.run Interlock.step get insert remove drive_tx_cycle play hold_tail finish
    submit drain sleep_cancellable wait mock_key mock_unkey expected_airtime after_cycle ℕ_discrete
ran = refl

-- The second job is never answered once the line could not be keyed.
abbrev broken : Thread byte_dsp ℕ MockPtt
broken = record thread { ptt = fail_key new_mock }

ran_broken :
    run byte_dsp ℕ_discrete mock_driver cfg
      ((frame_job byte_dsp (packet_of (5 ∷ 6 ∷ [])) 1, round)
        ∷ (frame_job byte_dsp (packet_of (7 ∷ [])) 2, round)
        ∷ [])
      broken
    ≡ some (
      cycle_ended (key_failed (io (codes "mock key failure"))),
      record broken {
        log =
            transmit_started 4 1
            ∷ ptt_keyed 4 true
            ∷ ptt_keyed 4 false
            ∷ transmit_complete 4 1
            ∷ [];
      },
    )
unfolding run serve put_on_air render at_rate with_rsid burst_of lease_blocked may_transmit begin_tx
    end_tx Interlock.run Interlock.step get insert remove drive_tx_cycle mock_key after_cycle
    ℕ_discrete
ran_broken = refl

-- A worker whose thread has ended gives every job back.
back_at_once :
    (enqueue byte_dsp
      (frame_job byte_dsp (packet_of []) 1)
      (record (new_worker byte_dsp) { receiving = false })).0
    ≡ some (frame_job byte_dsp (packet_of []) 1)
unfolding enqueue
back_at_once = refl

timely : IsTimely byte_dsp ℕ_discrete mock_driver cfg jobs tt
unfolding render burst_of at_rate with_rsid reaches polls_reach expected_airtime
timely = (
  record { lead = refl; air = refl; tail = refl },
  (tt, (record { lead = refl; air = refl; tail = refl }, tt)),
)

run-answers_example :
    (e : End) × (t1 : Thread byte_dsp ℕ MockPtt) × (taken dropped : List
      (TxJob byte_dsp × Round byte_dsp ℕ))
    × (run byte_dsp ℕ_discrete mock_driver cfg jobs thread ≡ some (e, t1))
    × (jobs ≡ taken ++ dropped)
    × (marks t1.log ≡ marks thread.log ++ answers byte_dsp ℕ_discrete mock_driver cfg taken)
    × (e ≡ queue_closed → dropped ≡ [])
run-answers_example = run-answers byte_dsp ℕ_discrete mock_driver cfg jobs thread timely

abbrev IsOff : MockPtt → Type 0
IsOff p = p.keyed ≡ false

unkey-IsOff : (p : MockPtt) → (mock_unkey p).0 ≡ none → IsOff (mock_unkey p).1
unfolding mock_unkey
unkey-IsOff p h = ground arith

run-released_example : last.ptt.keyed ≡ false
run-released_example =
    run-released byte_dsp ℕ_discrete mock_driver cfg IsOff unkey-IsOff jobs thread queue_closed last
      refl ran refl

balanced :
    All
      (λ j. (depth ℕ_discrete 9 1 j.1.meanwhile ≡ 1) × (0 + 1 + length j.1.meanwhile < 2 ^ 32))
      jobs
unfolding depth ℕ_discrete
balanced = ((refl, omega arith), ((refl, omega arith), ((refl, omega arith), tt)))

run-unmuted_example : get ℕ_discrete 9 last.keyed ≡ none
unfolding get
run-unmuted_example =
    run-unmuted byte_dsp ℕ_discrete mock_driver cfg 0 jobs thread queue_closed last balanced refl
      ran

-- Channel 5 takes the lease while channel 4 waits for its slot.
abbrev late_round : Round byte_dsp ℕ
late_round = record round { after = (9, 5) ∷ [] }

abbrev late_jobs : List (TxJob byte_dsp × Round byte_dsp ℕ)
late_jobs = (frame_job byte_dsp (packet_of (5 ∷ 6 ∷ [])) 1, late_round) ∷ []

late_leased :
    IsLeasedTo byte_dsp ℕ_discrete mock_driver cfg 5
      (frame_job byte_dsp (packet_of (5 ∷ 6 ∷ [])) 1, late_round)
unfolding acquire Lease.run Lease.step Lease.release get insert ℕ_discrete
late_leased = record {
  holders = [];
  calls = Lease.releases 9 4 ∷ [];
  grant = refl;
  others = ((λ e. cc), tt);
  seen = refl;
}

abbrev late_last : Thread byte_dsp ℕ MockPtt
late_last = record thread { log = transmit_started 4 1 ∷ transmit_complete 4 1 ∷ [] }

ran_late : run byte_dsp ℕ_discrete mock_driver cfg late_jobs thread ≡ some (queue_closed, late_last)
unfolding run serve render lease_blocked may_transmit get ℕ_discrete
ran_late = refl

run-leased_example : (late_last.ptt ≡ new_mock) × (late_last.sink ≡ sink) × (late_last.keyed ≡ [])
run-leased_example =
    run-leased byte_dsp ℕ_discrete mock_driver cfg 5 late_jobs thread queue_closed late_last
      (λ e. cc) (late_leased, tt) ran_late

abbrev crowd : List (TxJob byte_dsp)
crowd = replicate 33 (frame_job byte_dsp (packet_of []) 1)

enqueue_all-take_example :
    ((enqueue_all byte_dsp crowd (new_worker byte_dsp)).0
      ≡ frame_job byte_dsp (packet_of []) 1 ∷ [])
    × ((enqueue_all byte_dsp crowd (new_worker byte_dsp)).1.queue
        ≡ replicate 32 (frame_job byte_dsp (packet_of []) 1))
    × (length (enqueue_all byte_dsp crowd (new_worker byte_dsp)).1.queue ≤ tx_queue_depth)
enqueue_all-take_example = enqueue_all-take byte_dsp crowd (new_worker byte_dsp) refl (omega arith)
