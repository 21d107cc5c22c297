-- ===== src/Supervisor/History.antt =====
-- Every call that configures a channel, and the agreement of channels and table over a history.
use omnimodem.Base.{
  ℕ, ◌<◌, ◌^◌, ◌≡◌, refl, Bool, true, ◌&&◌, ◌==◌, List, [], ◌∷◌, some, arith, if◌then◌else◌, All,
}
use omnimodem.Base.Text.{Text}
use omnimodem.Ids.{DeviceId}
use omnimodem.Ids.RoundTrip.{InRange}
use omnimodem.Ptt.Registry.{PttConfig}
use omnimodem.Persist.{Database, DatabaseLaws}
use omnimodem.Persist.RoundTrip.{IsPtt}
use omnimodem.Supervisor.{
  Supervisor, max_sample_rate, configure_channel, configure_audio, configure_ptt,
}
use omnimodem.Supervisor.Agreement.{Agrees, configure_channel-Agrees, apply-Agrees}

-- The calls that configure a channel.
pub data Call : Type 0 where
  channel : ℕ → Text → Text → Bool → Bool → Call
  audio : ℕ → DeviceId → ℕ → ℕ → DeviceId → ℕ → Call
  binding : ℕ → PttConfig → Call

abbrev pub IsCall : Call → Type 0
IsCall (channel id name mode rsid_tx rsid_rx) = id < 2 ^ 32
IsCall (audio id device_id sample_rate fanout tx_device_id tx_sample_rate) =
    InRange device_id
    × (sample_rate < 2 ^ 32)
    × (fanout < 2 ^ 32)
    × InRange tx_device_id
    × (tx_sample_rate < 2 ^ 32)
IsCall (binding id ptt) = IsPtt ptt

module _ (db : Database) where
  unfoldable pub perform : Call → Supervisor db → Bool × Supervisor db
  perform (channel id name mode rsid_tx rsid_rx) s =
      configure_channel db id name mode rsid_tx rsid_rx s
  perform (audio id device_id sample_rate fanout tx_device_id tx_sample_rate) s =
      configure_audio db id device_id sample_rate fanout tx_device_id tx_sample_rate s
  perform (binding id ptt) s = configure_ptt db id ptt s

  -- Whether every write has succeeded, and the supervisor after the calls.
  unfoldable pub run : List Call → Supervisor db → Bool × Supervisor db
  run [] s = (true, s)
  run (call ∷ calls) s =
      let (ok, s') = perform call s in let (rest_ok, last) = run calls s' in (ok && rest_ok, last)

module _ (db : Database) (laws : DatabaseLaws db) where
  perform-Agrees :
      (call : Call) (s : Supervisor db)
      → IsCall call
      → Agrees db laws s
      → (perform db call s).0 ≡ true
      → Agrees db laws (perform db call s).1
  unfolding perform configure_audio configure_ptt
  perform-Agrees (channel id name mode rsid_tx rsid_rx) s h agrees ok =
      configure_channel-Agrees db laws id name mode rsid_tx rsid_rx s h agrees
  perform-Agrees (audio id device_id rate fanout tx_id tx_rate) s (h0, h1, h2, h3, h4) agrees ok =
      apply-Agrees db laws id _ s
        (λ cfg in_range. (
          refl,
          record {
            id = in_range.id;
            device = h0;
            sample_rate = rate_fits rate h1;
            fanout = h2;
            tx_device = h3;
            tx_sample_rate = h4;
            ptt = in_range.ptt;
          },
        ))
        agrees ok
    where
      rate_fits :
          (rate : ℕ) → rate < 2 ^ 32 → (if rate == 0 then max_sample_rate else rate) < 2 ^ 32
      rate_fits rate h = ground arith
  perform-Agrees (binding id ptt) s h agrees ok =
      apply-Agrees db laws id (λ cfg. record cfg { ptt = some ptt }) s
        (λ cfg in_range. (
          refl,
          record {
            id = in_range.id;
            device = in_range.device;
            sample_rate = in_range.sample_rate;
            fanout = in_range.fanout;
            tx_device = in_range.tx_device;
            tx_sample_rate = in_range.tx_sample_rate;
            ptt = h;
          },
        ))
        agrees ok

  pub run-Agrees :
      (calls : List Call) (s : Supervisor db)
      → All IsCall calls
      → Agrees db laws s
      → (run db calls s).0 ≡ true
      → Agrees db laws (run db calls s).1
  unfolding run
  run-Agrees [] s h agrees ok = agrees
  run-Agrees (call ∷ calls) s h agrees ok =
      let first : (perform db call s).0 ≡ true = ground arith in
      run-Agrees calls (perform db call s).1 h.1 (perform-Agrees call s h.0 agrees first)
        (ground (arith, first))

-- Whether the call changes the live channel before its write is known to succeed.
abbrev pub WritesLate : Call → Type 0
WritesLate (channel id name mode rsid_tx rsid_rx) = ⊥
WritesLate (audio id device_id sample_rate fanout tx_device_id tx_sample_rate) = Unit
WritesLate (binding id ptt) = Unit

module _ (db : Database) where
  -- Over the calls as they come, each with what it meets, those that write late succeed.
  abbrev pub LateSucceed : List Call → Supervisor db → Type 0
  LateSucceed [] s = Unit
  LateSucceed (call ∷ calls) s =
      (WritesLate call → (perform db call s).0 ≡ true) × LateSucceed calls (perform db call s).1

module _ (db : Database) (laws : DatabaseLaws db) where
  either-Agrees :
      (call : Call) (s : Supervisor db)
      → IsCall call
      → Agrees db laws s
      → (WritesLate call → (perform db call s).0 ≡ true)
      → Agrees db laws (perform db call s).1
  unfolding perform
  either-Agrees (channel id name mode rsid_tx rsid_rx) s h agrees late =
      configure_channel-Agrees db laws id name mode rsid_tx rsid_rx s h agrees
  either-Agrees (audio id device_id rate fanout tx_id tx_rate) s h agrees late =
      perform-Agrees db laws (audio id device_id rate fanout tx_id tx_rate) s h agrees (late tt)
  either-Agrees (binding id ptt) s h agrees late =
      perform-Agrees db laws (binding id ptt) s h agrees (late tt)

  -- Over any calls whose ids and numbers are in the range of their types, in a database that does as
  -- is documented of it, channels and table that agree stay in agreement whichever calls of
  -- `configure_channel` fail to write, as long as those of `configure_audio` and `configure_ptt`
  -- write.
  pub run_failing-Agrees :
      (calls : List Call) (s : Supervisor db)
      → All IsCall calls
      → Agrees db laws s
      → LateSucceed db calls s
      → Agrees db laws (run db calls s).1
  unfolding run
  run_failing-Agrees [] s h agrees late = agrees
  run_failing-Agrees (call ∷ calls) s h agrees late =
      run_failing-Agrees calls (perform db call s).1 h.1 (either-Agrees call s h.0 agrees late.0)
        late.1
