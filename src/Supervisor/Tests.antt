-- ===== src/Supervisor/Tests.antt =====
-- A channel that is configured, and a supervisor that is restarted, over a database of one row.
use native.Mathlib.Decide.{ℕ_discrete}
use omnimodem.Base.{
  ℕ, ◌≡◌, ◌≢◌, refl, sym, ◌∙◌, Bool, true, false, List, [], ◌∷◌, none, some, arith, All,
}
use omnimodem.Base.Store.{get, insert}
use omnimodem.Base.Text.{codes, text_eq, split_once}
use omnimodem.Ids.{serial, alsa_card, placeholder, to_canonical_string}
use omnimodem.Persist.{
  load_channels, decode_rows, decode_row, device_or_placeholder, decode_ptt, decode_method,
  tx_device, Row, encode_row, encode_ptt, upsert_channel,
}
use omnimodem.Persist.OneRow.{one_row, one_row_laws, write, room, same_id, find, read_u32}
use omnimodem.Mode.Config.{ft8, arm_of, late_arm, build}
use omnimodem.Mode.Config
use omnimodem.Mode.Labels.{is_label, is_ifkp, is_fsq, contestia_from_label, strip_prefix}
use omnimodem.Channel.{ChannelConfig, ChannelState, new_state}
use omnimodem.Ids
use mathlib.Core.Logic.{if_pos, if_neg}
use omnimodem.Mode.Config.TwoFloats.{two_floats}
use omnimodem.Supervisor.{
  Supervisor, channel_at, configured, update_config, configure_channel, configure_audio, apply, new,
  restore, coerce_mode,
}
use omnimodem.Supervisor.Agreement.{Agrees}
use omnimodem.Supervisor.History.{
  Call, channel, audio, IsCall, perform, run, run-Agrees, LateSucceed, run_failing-Agrees,
}
use omnimodem.Supervisor.Calls.{perform-others, configure_channel-bindings, bindings_of}
use omnimodem.Supervisor.Modes.{new-Resolves}
use omnimodem.Supervisor.Restart.{config_of, new-restarts}

abbrev fresh : Bool → Supervisor one_row
fresh writable = record { channels = []; store = record { row = none; writable = writable } }

fresh-Agrees : Agrees one_row one_row_laws (fresh true)
unfolding one_row_laws find get
fresh-Agrees = record { rows = λ i. refl; no_others = λ n. refl }

abbrev calls : List Call
calls =
    channel 1 (codes "hf") (codes "ft8") true false
    ∷ audio 1 (serial (codes "a")) 0 2 (serial (codes "b")) 8000
    ∷ []

calls-IsCall : All IsCall calls
calls-IsCall = (omega arith, ((tt, omega arith, omega arith, tt, omega arith), tt))

calls_ok : (run one_row calls (fresh true)).0 ≡ true
unfolding run perform configure_channel configure_audio apply upsert_channel write room same_id get
    insert configured update_config encode_row ℕ_discrete
calls_ok = refl

abbrev hf : ChannelConfig
hf = record {
  id = 1;
  name = codes "hf";
  mode = codes "ft8";
  device_id = serial (codes "a");
  sample_rate = 48000;
  fanout = 2;
  tx_device_id = serial (codes "b");
  tx_sample_rate = 8000;
  ptt = none;
  rsid_tx = true;
  rsid_rx = false;
}

abbrev hf_only : Supervisor one_row
hf_only = record {
  channels = (1, new_state hf) ∷ [];
  store = record { row = some (encode_row hf); writable = true };
}

hf_configured : (run one_row calls (fresh true)).1 ≡ hf_only
unfolding run perform configure_channel configure_audio apply upsert_channel write room same_id get
    insert configured update_config encode_row ℕ_discrete
hf_configured = refl

hf_only-Agrees : Agrees one_row one_row_laws hf_only
hf_only-Agrees =
    rw hf_configured at
      (run-Agrees one_row one_row_laws calls (fresh true) calls-IsCall fresh-Agrees calls_ok)

ft8_parsed : Config.parse two_floats (codes "ft8") ≡ some ft8
unfolding Config.parse split_once arm_of text_eq build
ft8_parsed = refl

hf_resolves :
    (i : ℕ) (state : ChannelState)
    → channel_at i hf_only.channels ≡ some state
    → Config.parse two_floats state.config.mode ≢ none
unfolding get
hf_resolves i state e = elim (ℕ_discrete 1 i) [
  | yes same ↦
      let this : new_state hf ≡ state = cc_of (sym (if_pos (ℕ_discrete 1 i) same _ _) ∙ e) in
      rw⁻¹ this (λ bad. none_some (sym bad ∙ ft8_parsed))
  | no ne ↦ absurd (none_some (sym (if_neg (ℕ_discrete 1 i) ne _ _) ∙ e))
]
  where
    none_some : {A : Type 0} {a : A} → none ≡ some a → ⊥
    none_some e = cc

    cc_of : some (new_state hf) ≡ some state → new_state hf ≡ state
    cc_of e = cc

new-restarts_example :
    (again : Supervisor one_row) × (new two_floats one_row hf_only.store ≡ some again)
    × ((i : ℕ)
        → config_of (channel_at i again.channels) ≡ config_of (channel_at i hf_only.channels))
new-restarts_example =
    new-restarts two_floats one_row one_row_laws hf_only (encode_row hf ∷ []) hf_only-Agrees
      hf_resolves refl

-- A mode that no longer resolves.
abbrev odd : Row
odd = record (encode_row hf) { mode = codes "ft9" }

abbrev odd_restored : Supervisor one_row
odd_restored = record {
  channels = (1, new_state record hf { mode = codes "none" }) ∷ [];
  store = record { row = some odd; writable = true };
}

odd_loaded : new two_floats one_row odd_restored.store ≡ some odd_restored
unfolding new load_channels decode_rows decode_row read_u32 device_or_placeholder Ids.parse
    split_once text_eq to_canonical_string encode_row encode_ptt decode_ptt decode_method tx_device
    restore coerce_mode Config.parse arm_of late_arm is_label is_ifkp is_fsq contestia_from_label
    strip_prefix insert
odd_loaded = refl

new-Resolves_example : Config.parse two_floats (codes "none") ≢ none
new-Resolves_example =
    new-Resolves two_floats one_row odd_restored.store odd_restored odd_loaded 1
      (new_state record hf { mode = codes "none" }) (unfold get ℕ_discrete in refl)

hf_untouched :
    channel_at 1
      (perform one_row (channel 2 (codes "x") (codes "cw") false false) hf_only).1.channels
    ≡ channel_at 1 hf_only.channels
hf_untouched =
    perform-others one_row (channel 2 (codes "x") (codes "cw") false false) hf_only 1
      (λ e. omega arith)

hf_live : channel_at 1 hf_only.channels ≢ none
unfolding get ℕ_discrete
hf_live e = cc

no_room : (configure_channel one_row 2 (codes "x") (codes "cw") false false hf_only).0 ≡ false
unfolding configure_channel upsert_channel write room same_id get configured encode_row ℕ_discrete
no_room = refl

configure_channel-bindings_example :
    bindings_of (
      channel_at 1
        (configure_channel one_row 1 (codes "hf") (codes "cw") false false hf_only).1.channels)
    ≡ bindings_of (channel_at 1 hf_only.channels)
configure_channel-bindings_example =
    configure_channel-bindings one_row 1 (codes "hf") (codes "cw") false false hf_only 1 hf_live

-- There is no room for a second channel, and the first is configured again.
abbrev more_calls : List Call
more_calls =
    channel 2 (codes "x") (codes "cw") false false
    ∷ channel 1 (codes "hf") (codes "cw") true false
    ∷ audio 1 (serial (codes "a")) 0 1 (serial (codes "a")) 0
    ∷ []

more_late : LateSucceed one_row more_calls hf_only
unfolding perform configure_channel configure_audio apply upsert_channel write room same_id get
    insert configured update_config encode_row ℕ_discrete
more_late = ((λ h. absurd h), ((λ h. absurd h), ((λ h. refl), tt)))

run_failing-Agrees_example : Agrees one_row one_row_laws (run one_row more_calls hf_only).1
run_failing-Agrees_example =
    run_failing-Agrees one_row one_row_laws more_calls hf_only (omega arith) hf_only-Agrees
      more_late

-- A write that fails: the live channel has its new devices all the same, and its row the old ones.
abbrev read_only : Supervisor one_row
read_only = record {
  channels = (1, new_state hf) ∷ [];
  store = record { row = some (encode_row hf); writable = false };
}

audio_live_only : configure_audio one_row 1 placeholder 8000 1 placeholder 0 read_only ≡ (
  false,
  record {
    channels =
        (
          1,
          new_state record hf {
            device_id = placeholder;
            sample_rate = 8000;
            fanout = 1;
            tx_device_id = placeholder;
            tx_sample_rate = 0;
          },
        )
        ∷ [];
    store = read_only.store;
  },
)
unfolding configure_audio apply upsert_channel write room get insert ℕ_discrete encode_row
audio_live_only = refl
