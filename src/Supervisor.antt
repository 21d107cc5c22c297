-- ===== src/Supervisor.antt =====
-- The supervisor, crates/omnimodem/src/supervisor/mod.rs: the live channels beside the database.
-- Its device cache, its PTT registry and its interlock are parts of their own, which no operation
-- here touches.
pub mod Agreement
pub mod History
pub mod Calls
pub mod Modes
pub mod Restart
mod Tests
use native.Mathlib.Decide.{ℕ_discrete}
use omnimodem.Base.{
  ℕ, Bool, true, false, ◌==◌, List, [], ◌∷◌, Option, none, some, map, if◌then◌else◌,
}
use omnimodem.Base.Store.{get, insert}
use omnimodem.Base.Text.{Text, codes}
use omnimodem.Ids.{DeviceId, placeholder}
use omnimodem.Ptt.Registry.{PttConfig}
use omnimodem.Channel.{ChannelConfig, ChannelState, new_state}
use omnimodem.Mode.Config.{Floats, ModeConfig, no_mode}
use omnimodem.Mode.Config
use omnimodem.Persist.{Database, upsert_channel, load_channels}

abbrev pub max_sample_rate : ℕ
max_sample_rate = 48000

-- The channels are a map ordered by their id, of which the model keeps the entries only.
pub record Supervisor (db : Database) : Type 0 where
  pub channels : List (ℕ × ChannelState)
  pub store : db.Conn

abbrev pub channel_at : ℕ → List (ℕ × ChannelState) → Option ChannelState
channel_at id channels = get ℕ_discrete id channels

abbrev pub put : ℕ → ChannelState → List (ℕ × ChannelState) → List (ℕ × ChannelState)
put id state channels = insert ℕ_discrete id state channels

module _ (fl : Floats) where
  -- A mode that no longer resolves becomes `none`.
  unfoldable pub coerce_mode : ChannelConfig → ChannelConfig
  coerce_mode cfg = elim (Config.parse fl cfg.mode) [
    | none ↦ record cfg { mode = codes "none" }
    | some m ↦ cfg
  ]

  unfoldable pub restore : List ChannelConfig → List (ℕ × ChannelState) → List (ℕ × ChannelState)
  restore [] channels = channels
  restore (cfg ∷ cfgs) channels = restore cfgs (put cfg.id (new_state (coerce_mode cfg)) channels)

  unfoldable pub channel_mode : ℕ → List (ℕ × ChannelState) → ModeConfig fl.F
  channel_mode id channels = elim (channel_at id channels) [
    | none ↦ no_mode
    | some state ↦ elim (Config.parse fl state.config.mode) [ none ↦ no_mode | some m ↦ m ]
  ]

  module _ (db : Database) where
    -- `Supervisor::new`: none if the channels cannot be loaded.
    unfoldable pub new : db.Conn → Option (Supervisor db)
    new store = elim (load_channels db store) [
      | none ↦ none
      | some cfgs ↦ some record { channels = restore cfgs []; store = store }
    ]

unfoldable pub channel_rsid : ℕ → List (ℕ × ChannelState) → Bool × Bool
channel_rsid id channels = elim (channel_at id channels) [
  | none ↦ (false, false)
  | some state ↦ (state.config.rsid_tx, state.config.rsid_rx)
]

unfoldable pub channel_ptt_timing : ℕ → List (ℕ × ChannelState) → ℕ × ℕ
channel_ptt_timing id channels = elim (channel_at id channels) [
  | none ↦ (0, 0)
  | some state ↦ elim state.config.ptt [ none ↦ (0, 0) | some p ↦ (p.tx_delay_ms, p.tx_tail_ms) ]
]

-- The configuration that `configure_channel` writes.
unfoldable pub configured : ℕ → Text → Text → Bool → Bool → Option ChannelState → ChannelConfig
configured id name mode rsid_tx rsid_rx (some state) = record state.config {
  name = name;
  mode = mode;
  rsid_tx = rsid_tx;
  rsid_rx = rsid_rx;
}
configured id name mode rsid_tx rsid_rx none = record {
  id = id;
  name = name;
  mode = mode;
  device_id = placeholder;
  sample_rate = max_sample_rate;
  fanout = 1;
  tx_device_id = placeholder;
  tx_sample_rate = 0;
  ptt = none;
  rsid_tx = rsid_tx;
  rsid_rx = rsid_rx;
}

-- An entry that is there keeps whether it is running.
unfoldable pub update_config : ChannelConfig → Option ChannelState → ChannelState
update_config cfg none = new_state cfg
update_config cfg (some state) = record state { config = cfg }

module _ (db : Database) where
  -- The result of a call: whether the write succeeded, and the supervisor.
  unfoldable pub configure_channel :
      ℕ → Text → Text → Bool → Bool → Supervisor db → Bool × Supervisor db
  configure_channel id name mode rsid_tx rsid_rx s =
      let cfg = configured id name mode rsid_tx rsid_rx (channel_at id s.channels) in
      let (ok, store) = upsert_channel db cfg s.store in
      if ok
      then (
        true,
        record {
          channels = put id (update_config cfg (channel_at id s.channels)) s.channels;
          store = store;
        },
      )
      else (false, record s { store = store })

  -- A live channel takes its new configuration, and then it is written.
  unfoldable pub apply : ℕ → (ChannelConfig → ChannelConfig) → Supervisor db → Bool × Supervisor db
  apply id change s = elim (channel_at id s.channels) [
    | none ↦ (true, s)
    | some state ↦
        let cfg = change state.config in
        let (ok, store) = upsert_channel db cfg s.store in
        (ok, record { channels = put id record state { config = cfg } s.channels; store = store })
  ]

  unfoldable pub configure_audio :
      ℕ → DeviceId → ℕ → ℕ → DeviceId → ℕ → Supervisor db → Bool × Supervisor db
  configure_audio id device_id sample_rate fanout tx_device_id tx_sample_rate s =
      apply id
        (λ cfg. record cfg {
          device_id = device_id;
          sample_rate = if sample_rate == 0 then max_sample_rate else sample_rate;
          fanout = fanout;
          tx_device_id = tx_device_id;
          tx_sample_rate = tx_sample_rate;
        })
        s

  unfoldable pub configure_ptt : ℕ → PttConfig → Supervisor db → Bool × Supervisor db
  configure_ptt id ptt s = apply id (λ cfg. record cfg { ptt = some ptt }) s
