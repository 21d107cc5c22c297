-- ===== src/Ptt/Sequence/Cycle.antt =====
-- What a transmission does to the line and to the sink, over every course of events.
use omnimodem.Base.{
  ℕ, ◌+◌, ◌≡◌, refl, Bool, true, false, not, ◌&&◌, ◌||◌, List, [], ◌∷◌, none, some, arith, leb,
  ◌==◌, inl, inr, Bool-cases, Option-cases,
}
use omnimodem.Ptt.Driver.{io, PttDriver, MockPtt, mock_key, mock_unkey, mock_driver}
use omnimodem.Ptt.Sequence.{
  PlaybackHandle, submit, TxCycleOutcome, done, aborted, submit_failed, key_failed, Look, wait,
  sleep_cancellable, Poll, drain, World, Burst, expected_airtime, grace, ending, finish, hold_tail,
  play, drive_tx_cycle,
}

-- Whether the clock reaches a deadline in the rounds given.
unfoldable pub reaches : ℕ → List Look → Bool
reaches deadline [] = false
reaches deadline (l ∷ ls) = leb deadline l.now || reaches deadline ls

unfoldable pub polls_reach : ℕ → List Poll → Bool
polls_reach deadline [] = false
polls_reach deadline (p ∷ ps) = leb deadline p.now || polls_reach deadline ps

-- A world in which the clock goes on until each loop's own deadline.
pub record IsLong (w : World) (b : Burst) : Type 0 where
  pub lead : reaches (w.lead_entry.now + b.tx_delay) w.lead_looks ≡ true
  pub air : polls_reach (w.start + expected_airtime b + grace) w.polls ≡ true
  pub tail : reaches (w.tail_entry.now + b.tx_tail) w.tail_looks ≡ true

wait_total :
    (deadline : ℕ) (ls : List Look)
    → reaches deadline ls ≡ true
    → (b : Bool) × (wait deadline ls ≡ some b)
unfolding reaches wait
wait_total deadline [] h = cc
wait_total deadline (l ∷ ls) h = elim (Bool-cases l.cancelled) [
  | inl stop ↦ (true, rw stop refl)
  | inr on ↦ elim (Bool-cases (leb deadline l.now)) [
    | inl late ↦ (false, rw (on, late) refl)
    | inr early ↦
        let (b, e) = wait_total deadline ls (ground (arith, h, early)) in (b, rw (on, early) e)
  ]
]

sleep_total :
    (dur : ℕ) (entry : Look) (ls : List Look)
    → reaches (entry.now + dur) ls ≡ true
    → (b : Bool) × (sleep_cancellable dur entry ls ≡ some b)
unfolding sleep_cancellable
sleep_total dur entry ls h = elim (Bool-cases entry.cancelled) [
  | inl stop ↦ (true, rw stop refl)
  | inr on ↦ elim (Bool-cases (dur == 0)) [
    | inl zero_wait ↦ (false, rw (on, zero_wait) refl)
    | inr some_wait ↦ let (b, e) = wait_total (entry.now + dur) ls h in (b, rw (on, some_wait) e)
  ]
]

drain_total :
    (watermark expected deadline : ℕ) (ps : List Poll)
    → polls_reach deadline ps ≡ true
    → (b : Bool) × (drain watermark expected deadline ps ≡ some b)
unfolding polls_reach drain
drain_total watermark expected deadline [] h = cc
drain_total watermark expected deadline (p ∷ ps) h = elim (Bool-cases p.cancelled) [
  | inl stop ↦ (true, rw stop refl)
  | inr on ↦ elim (Bool-cases (leb watermark p.drained && leb expected p.elapsed)) [
    | inl played ↦ (false, rw (on, played) refl)
    | inr playing ↦ elim (Bool-cases (leb deadline p.now)) [
      | inl late ↦ (false, rw (on, playing, late) refl)
      | inr early ↦
          let (b, e) = drain_total watermark expected deadline ps (ground (arith, h, early)) in
          (b, rw (on, playing, early) e)
    ]
  ]
]

-- The line after a key and, if that held, one unkey.
unfoldable pub keyed_once : {S : Type 0} → PttDriver S → S → S
keyed_once driver ptt = elim ((driver.key ptt).0) [
  | some e ↦ (driver.key ptt).1
  | none ↦ (driver.unkey (driver.key ptt).1).1
]

module _ {S : Type 0} (driver : PttDriver S) where
  hold_tail_total :
      (w : World) (b : Burst) (ptt : S) (sink : PlaybackHandle) (cancelled : Bool)
      → reaches (w.tail_entry.now + b.tx_tail) w.tail_looks ≡ true
      → (o : TxCycleOutcome) × (k : PlaybackHandle) × (hold_tail driver w b ptt sink cancelled
          ≡ some (o, ((driver.unkey ptt).1, k)))
  unfolding hold_tail finish
  hold_tail_total w b ptt sink true h = (_, _, refl)
  hold_tail_total w b ptt sink false h =
      let (cut, e) = sleep_total b.tx_tail w.tail_entry w.tail_looks h in
      (ending done (driver.unkey ptt).0, sink, rw (e, hold_tail) refl)

  play_total :
      (w : World) (b : Burst) (ptt : S) (sink : PlaybackHandle)
      → IsLong w b
      → (o : TxCycleOutcome) × (k : PlaybackHandle) × (play driver w b ptt sink
          ≡ some (o, ((driver.unkey ptt).1, k)))
  unfolding play
  play_total w b ptt sink h = elim (Option-cases (submit b.samples sink).0.0) [
    | inr (e, failed) ↦ (submit_failed (io e), (submit b.samples sink).1, rw (failed, play) refl)
    | inl sent ↦
        let (cancelled, e) =
          drain_total (submit b.samples sink).0.1 (expected_airtime b)
            (w.start + expected_airtime b + grace) w.polls h.air in
        let (o, k, held) = hold_tail_total w b ptt (submit b.samples sink).1 cancelled h.tail in
        (o, k, rw (sent, play, e) held)
  ]

  -- However the clock, the flag and the sound card behave, as long as the clock reaches each
  -- loop's deadline, a cycle returns, and its calls on the line are one key and, unless that
  -- failed, one unkey after it.
  pub drive_tx_cycle-keyed_once :
      (w : World) (b : Burst) (ptt : S) (sink : PlaybackHandle)
      → IsLong w b
      → (o : TxCycleOutcome) × (k : PlaybackHandle) × (drive_tx_cycle driver w b ptt sink
          ≡ some (o, (keyed_once driver ptt, k)))
  unfolding drive_tx_cycle keyed_once finish
  drive_tx_cycle-keyed_once w b ptt sink h = elim (Option-cases (driver.key ptt).0) [
    | inr (e, failed) ↦ (key_failed e, sink, rw (failed, drive_tx_cycle, keyed_once) refl)
    | inl ok ↦
        let (cancelled, e) = sleep_total b.tx_delay w.lead_entry w.lead_looks h.lead in
        elim (Bool-cases cancelled) [
          | inl stop ↦ (
            ending aborted (driver.unkey (driver.key ptt).1).0,
            sink,
            rw (ok, drive_tx_cycle, keyed_once, e, stop) refl,
          )
          | inr on ↦
              let (o, k, played) = play_total w b (driver.key ptt).1 sink h in
              (o, k, rw (ok, drive_tx_cycle, keyed_once, e, on) played)
        ]
  ]

mock_line :
    (p : MockPtt)
    → p.keyed ≡ false
    → (keyed_once mock_driver p).keyed ≡ (not p.key_fails && p.unkey_fails)
unfolding keyed_once mock_key mock_unkey
mock_line p h = ground arith

-- With the test double, whose line is open before, a cycle returns and leaves the line keyed
-- only if its key succeeds and its unkey is made to fail; the clock is to reach each deadline.
pub mock-released :
    (w : World) (b : Burst) (p : MockPtt) (sink : PlaybackHandle)
    → IsLong w b
    → p.keyed ≡ false
    → (o : TxCycleOutcome) × (q : MockPtt) × (k : PlaybackHandle) × (drive_tx_cycle mock_driver w b
          p sink
        ≡ some (o, (q, k)))
      × (q.keyed ≡ (not p.key_fails && p.unkey_fails))
mock-released w b p sink h off =
    let (o, k, e) = drive_tx_cycle-keyed_once mock_driver w b p sink h in
    (o, keyed_once mock_driver p, k, e, mock_line p off)
