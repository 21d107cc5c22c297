-- ===== src/Ptt/Sequence/Done.antt =====
-- What the outcome `Done` says of a transmission.
use omnimodem.Base.{
  ℕ, ◌+◌, ◌≡◌, refl, ◌∙◌, sym, ap, Bool, true, false, ◌&&◌, ◌||◌, List, [], ◌∷◌, Option, none, some,
  arith, leb, inl, inr, Option-cases,
}
use omnimodem.Ptt.Driver.{PttError, PttDriver}
use omnimodem.Ptt.Sequence.{
  PlaybackHandle, submit, TxCycleOutcome, done, aborted, sleep_cancellable, Poll, drain, World,
  Burst, expected_airtime, grace, ending, finish, hold_tail, play, drive_tx_cycle,
}

-- Whether a poll shows the samples played and their airtime over, or the deadline past.
unfoldable pub played_out : ℕ → ℕ → ℕ → List Poll → Bool
played_out watermark expected deadline [] = false
played_out watermark expected deadline (p ∷ ps) =
    ((leb watermark p.drained && leb expected p.elapsed) || leb deadline p.now)
    || played_out watermark expected deadline ps

drain_played :
    (watermark expected deadline : ℕ) (ps : List Poll)
    → drain watermark expected deadline ps ≡ some false
    → played_out watermark expected deadline ps ≡ true
unfolding drain played_out
drain_played watermark expected deadline [] h = cc
drain_played watermark expected deadline (p ∷ ps) h =
    ground (arith, drain_played watermark expected deadline ps)

ending-done :
    (o : TxCycleOutcome) (r : Option PttError) → ending o r ≡ done → (o ≡ done) × (r ≡ none)
ending-done o none h = (h, refl)
ending-done o (some e) h = cc

-- What has happened to the sink and the line when a cycle is done.
pub record IsPlayed {S : Type 0} (driver : PttDriver S) (w : World) (b : Burst) (ptt last : S)
    (sink after : PlaybackHandle) : Type 0 where
  pub was_keyed : (driver.key ptt).0 ≡ none
  pub was_released : (driver.unkey (driver.key ptt).1).0 ≡ none
  pub was_left : last ≡ (driver.unkey (driver.key ptt).1).1
  pub was_queued : after ≡ (submit b.samples sink).1
  pub was_sent : (submit b.samples sink).0.0 ≡ none
  pub was_drained :
      played_out
        (submit b.samples sink).0.1
        (expected_airtime b)
        (w.start + expected_airtime b + grace)
        w.polls
      ≡ true

some_parts :
    {A B C : Type 0} {a x : A} {b y : B} {c z : C}
    → ◌≡◌ {A = Option (A × (B × C))} (some (a, (b, c))) (some (x, (y, z)))
    → (a ≡ x) × (b ≡ y) × (c ≡ z)
some_parts e = (cc, cc, cc)

module _ {S : Type 0} (driver : PttDriver S) where
  hold_tail-done :
      (w : World) (b : Burst) (ptt last : S) (sink after : PlaybackHandle) (cancelled : Bool)
      → hold_tail driver w b ptt sink cancelled ≡ some (done, (last, after))
      → (cancelled ≡ false)
        × ((driver.unkey ptt).0 ≡ none)
        × (last ≡ (driver.unkey ptt).1)
        × (after ≡ sink)
  unfolding hold_tail finish
  hold_tail-done w b ptt last sink after true h =
      let (o, s, k) = some_parts h in cc (ending-done aborted (driver.unkey ptt).0 o).0
  hold_tail-done w b ptt last sink after false h =
      elim (Option-cases (sleep_cancellable b.tx_tail w.tail_entry w.tail_looks)) [
        | inl e ↦ cc (rw (e, hold_tail) at h)
        | inr (c, e) ↦
            let (o, s, k) = some_parts (rw (e, hold_tail) at h) in
            (refl, (ending-done done (driver.unkey ptt).0 o).1, sym s, sym k)
      ]

  play-done :
      (w : World) (b : Burst) (ptt last : S) (sink after : PlaybackHandle)
      → (driver.key ptt).0 ≡ none
      → play driver w b (driver.key ptt).1 sink ≡ some (done, (last, after))
      → IsPlayed driver w b ptt last sink after
  unfolding play
  play-done w b ptt last sink after ok h = elim (Option-cases (submit b.samples sink).0.0) [
    | inr (e, failed) ↦ cc (some_parts (rw (failed, play) at h)).0
    | inl sent ↦
        elim (Option-cases (
          drain (submit b.samples sink).0.1 (expected_airtime b)
            (w.start + expected_airtime b + grace) w.polls)) [
              | inl e ↦ cc (rw (sent, play, e) at h)
              | inr (cancelled, e) ↦
                  let (on, released, left, kept) =
                    hold_tail-done w b (driver.key ptt).1 last (submit b.samples sink).1 after
                      cancelled (rw (sent, play, e) at h) in
                  record {
                    was_keyed = ok;
                    was_released = released;
                    was_left = left;
                    was_queued = kept;
                    was_sent = sent;
                    was_drained = drain_played _ _ _ w.polls (e ∙ ap some on);
                  }
            ]
  ]

  -- A cycle that returns `Done` keyed and unkeyed without an error, sent its samples to the sink,
  -- and ended because a poll showed them drained and their airtime over, or the deadline past.
  pub drive_tx_cycle-IsPlayed :
      (w : World) (b : Burst) (ptt last : S) (sink after : PlaybackHandle)
      → drive_tx_cycle driver w b ptt sink ≡ some (done, (last, after))
      → IsPlayed driver w b ptt last sink after
  unfolding drive_tx_cycle finish
  drive_tx_cycle-IsPlayed w b ptt last sink after h = elim (Option-cases (driver.key ptt).0) [
    | inr (e, failed) ↦ cc (some_parts (rw (failed, drive_tx_cycle) at h)).0
    | inl ok ↦ elim (Option-cases (sleep_cancellable b.tx_delay w.lead_entry w.lead_looks)) [
      | inl e ↦ cc (rw (ok, drive_tx_cycle, e) at h)
      | inr (true, e) ↦
          cc
            (ending-done aborted (driver.unkey (driver.key ptt).1).0
              (some_parts (rw (ok, drive_tx_cycle, e) at h)).0).0
      | inr (false, e) ↦ play-done w b ptt last sink after ok (rw (ok, drive_tx_cycle, e) at h)
    ]
  ]
