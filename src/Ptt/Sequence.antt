-- ===== src/Ptt/Sequence.antt =====
-- One transmission, `drive_tx_cycle` of crates/omnimodem/src/ptt/sequence.rs, and the handle it
-- plays through, `PlaybackHandle` of crates/omnimodem/src/audio/backend.rs. Times are in
-- nanoseconds. What the clock, the cancel flag and the sound card show at each round of a loop is
-- an argument: a loop that has used up the rounds it is given has not returned, `none`.
pub mod Cycle
pub mod Done
mod Tests
use omnimodem.Base.{
  ℕ, ◌+◌, ◌*◌, ◌/◌, ◌%◌, ◌^◌, max, Bool, true, false, ◌&&◌, List, [], ◌∷◌, ◌++◌, Option, none, some,
  leb, ◌==◌, if◌then◌else◌, length,
}
use omnimodem.Base.Text.{Text}
use omnimodem.Ptt.Driver.{PttError, io, PttDriver}

-- `closed` is the error a send on the queue shows, once its receiver is gone.
pub record PlaybackHandle : Type 0 where
  pub queued : List (List ℕ)
  pub submitted : ℕ
  pub drained : ℕ
  pub closed : Option Text

-- The counter moves before the send, also when the send fails.
unfoldable pub submit : List ℕ → PlaybackHandle → (Option Text × ℕ) × PlaybackHandle
submit samples sink =
    let total = (sink.submitted + length samples) % 2 ^ 64 in
    elim (sink.closed) [
      | none ↦
          ((none, total), record sink { queued = sink.queued ++ (samples ∷ []); submitted = total })
      | some e ↦ ((some e, total), record sink { submitted = total })
    ]

-- The backend's own discard hook is outside the handle.
unfoldable pub flush : PlaybackHandle → PlaybackHandle
flush sink = record sink { drained = sink.submitted }

pub data TxCycleOutcome : Type 0 where
  done : TxCycleOutcome
  aborted : TxCycleOutcome
  key_failed : PttError → TxCycleOutcome
  submit_failed : PttError → TxCycleOutcome
  unkey_failed : PttError → TxCycleOutcome

-- One round of a wait: the flag, and the clock after it.
pub record Look : Type 0 where
  pub cancelled : Bool
  pub now : ℕ

unfoldable pub wait : ℕ → List Look → Option Bool
wait deadline [] = none
wait deadline (l ∷ ls) =
    if l.cancelled then some true else if leb deadline l.now then some false else wait deadline ls

-- The flag and the clock on entry, then the rounds.
unfoldable pub sleep_cancellable : ℕ → Look → List Look → Option Bool
sleep_cancellable dur entry looks =
    if entry.cancelled
    then some true
    else if dur == 0
    then some false
    else wait (entry.now + dur) looks

-- One round of the drain loop: the flag, the samples drained, the airtime elapsed, the clock.
pub record Poll : Type 0 where
  pub cancelled : Bool
  pub drained : ℕ
  pub elapsed : ℕ
  pub now : ℕ

-- Whether the loop was broken by a cancel.
unfoldable pub drain : ℕ → ℕ → ℕ → List Poll → Option Bool
drain watermark expected deadline [] = none
drain watermark expected deadline (p ∷ ps) =
    if p.cancelled
    then some true
    else if leb watermark p.drained && leb expected p.elapsed
    then some false
    else if leb deadline p.now
    then some false
    else drain watermark expected deadline ps

-- What one cycle sees of the world: the entry and the rounds of the lead-in, the start and the
-- rounds of the drain loop, the entry and the rounds of the tail.
pub record World : Type 0 where
  pub lead_entry : Look
  pub lead_looks : List Look
  pub start : ℕ
  pub polls : List Poll
  pub tail_entry : Look
  pub tail_looks : List Look

pub record Burst : Type 0 where
  pub samples : List ℕ
  pub sample_rate : ℕ
  pub tx_delay : ℕ
  pub tx_tail : ℕ

unfoldable pub expected_airtime : Burst → ℕ
expected_airtime b = length b.samples * 1000000000 % 2 ^ 64 / max b.sample_rate 1

abbrev pub grace : ℕ
grace = 500000000

-- The outcome of the last step, `ended` when the line was released.
abbrev pub ending : TxCycleOutcome → Option PttError → TxCycleOutcome
ending ended none = ended
ending ended (some e) = unkey_failed e

module _ {S : Type 0} (driver : PttDriver S) where
  unfoldable pub finish :
      TxCycleOutcome → S → PlaybackHandle → TxCycleOutcome × (S × PlaybackHandle)
  finish ended ptt sink = let r = driver.unkey ptt in (ending ended r.0, (r.1, sink))

  -- The end of the cycle, after the drain loop.
  unfoldable pub hold_tail :
      World → Burst → S → PlaybackHandle → Bool → Option (TxCycleOutcome × (S × PlaybackHandle))
  hold_tail w b ptt sink true = some (finish aborted ptt (flush sink))
  hold_tail w b ptt sink false = elim (sleep_cancellable b.tx_tail w.tail_entry w.tail_looks) [
    | none ↦ none
    | some cut_short ↦ some (finish done ptt sink)
  ]

  -- The burst, once the lead-in is served.
  unfoldable pub play :
      World → Burst → S → PlaybackHandle → Option (TxCycleOutcome × (S × PlaybackHandle))
  play w b ptt sink =
      let r = submit b.samples sink in
      elim (r.0.0) [
        | some e ↦ some (submit_failed (io e), ((driver.unkey ptt).1, r.1))
        | none ↦
            let expected = expected_airtime b in
            elim (drain r.0.1 expected (w.start + expected + grace) w.polls) [
              | none ↦ none
              | some cancelled ↦ hold_tail w b ptt r.1 cancelled
            ]
      ]

  unfoldable pub drive_tx_cycle :
      World → Burst → S → PlaybackHandle → Option (TxCycleOutcome × (S × PlaybackHandle))
  drive_tx_cycle w b ptt sink =
      let keyed = driver.key ptt in
      elim (keyed.0) [
        | some e ↦ some (key_failed e, (keyed.1, sink))
        | none ↦ elim (sleep_cancellable b.tx_delay w.lead_entry w.lead_looks) [
          | none ↦ none
          | some true ↦ some (finish aborted keyed.1 sink)
          | some false ↦ play w b keyed.1 sink
        ]
      ]
