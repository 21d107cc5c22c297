-- ===== src/Ptt/Sequence/Tests.antt =====
-- Transmissions at concrete courses of events.
use omnimodem.Base.{ℕ, ◌≡◌, refl, true, false, not, ◌&&◌, [], ◌∷◌, some, none}
use omnimodem.Ptt.Driver.{
  MockPtt, new_mock, fail_unkey, mock_driver, mock_key, mock_unkey, mock_drop, none_driver,
  none_ptt,
}
use omnimodem.Ptt.Sequence.{
  PlaybackHandle, submit, flush, TxCycleOutcome, done, aborted, Look, wait, sleep_cancellable,
  drain, World, Burst, expected_airtime, finish, hold_tail, play, drive_tx_cycle,
}
use omnimodem.Ptt.Sequence.Cycle.{
  reaches, polls_reach, IsLong, keyed_once, drive_tx_cycle-keyed_once, mock-released,
}
use omnimodem.Ptt.Sequence.Done.{IsPlayed, drive_tx_cycle-IsPlayed}

abbrev calm : ℕ → Look
calm t = record { cancelled = false; now = t }

abbrev burst : Burst
burst = record { samples = 5 ∷ 6 ∷ []; sample_rate = 1000000000; tx_delay = 10; tx_tail = 0 }

abbrev world : World
world = record {
  lead_entry = calm 0;
  lead_looks = calm 4 ∷ calm 11 ∷ [];
  start = 20;
  polls =
      record { cancelled = false; drained = 1; elapsed = 1; now = 21 }
      ∷ record { cancelled = false; drained = 2; elapsed = 3; now = 500000100 }
      ∷ [];
  tail_entry = calm 500000200;
  tail_looks = calm 500000200 ∷ [];
}

abbrev sink : PlaybackHandle
sink = record { queued = []; submitted = 0; drained = 0; closed = none }

world-IsLong : IsLong world burst
unfolding reaches polls_reach expected_airtime
world-IsLong = record { lead = refl; air = refl; tail = refl }

drive_tx_cycle-keyed_once_example :
    (o : TxCycleOutcome) × (k : PlaybackHandle) × (drive_tx_cycle mock_driver world burst
        (fail_unkey new_mock)
        sink
      ≡ some (o, (keyed_once mock_driver (fail_unkey new_mock), k)))
drive_tx_cycle-keyed_once_example =
    drive_tx_cycle-keyed_once mock_driver world burst (fail_unkey new_mock) sink world-IsLong

mock-released_run :
    (o : TxCycleOutcome) × (q : MockPtt) × (k : PlaybackHandle) × (drive_tx_cycle mock_driver world
        burst new_mock sink
      ≡ some (o, (q, k)))
    × (q.keyed ≡ (not new_mock.key_fails && new_mock.unkey_fails))
mock-released_run = mock-released world burst new_mock sink world-IsLong refl

abbrev last_mock : MockPtt
last_mock = record new_mock { keys = 1; unkeys = 1 }

abbrev last_sink : PlaybackHandle
last_sink = record sink { queued = (5 ∷ 6 ∷ []) ∷ []; submitted = 2 }

run_done :
    drive_tx_cycle mock_driver world burst new_mock sink ≡ some (done, (last_mock, last_sink))
unfolding drive_tx_cycle play hold_tail finish submit drain sleep_cancellable wait mock_key
    mock_unkey expected_airtime
run_done = refl

drive_tx_cycle-IsPlayed_example : IsPlayed mock_driver world burst new_mock last_mock sink last_sink
drive_tx_cycle-IsPlayed_example =
    drive_tx_cycle-IsPlayed mock_driver world burst new_mock last_mock sink last_sink run_done

-- A cancel during the drain loop flushes the sink.
abbrev cut_world : World
cut_world = record world {
  polls = record { cancelled = true; drained = 1; elapsed = 1; now = 21 } ∷ [];
}

run_cut :
    drive_tx_cycle none_driver cut_world burst none_ptt sink
    ≡ some (aborted, (none_ptt, record last_sink { drained = 2 }))
unfolding drive_tx_cycle play hold_tail finish submit flush drain sleep_cancellable wait
    expected_airtime
run_cut = refl

-- A driver dropped while keyed releases the line.
dropped : (mock_drop (mock_key new_mock).1).keyed ≡ false
unfolding mock_drop mock_key mock_unkey
dropped = refl
