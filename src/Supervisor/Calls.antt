-- ===== src/Supervisor/Calls.antt =====
-- What one call leaves alone: the other channels, the bindings, and everything if a write fails.
use native.Mathlib.Decide.{ℕ_discrete}
use omnimodem.Base.{
  ℕ, ◌≡◌, ◌≢◌, refl, sym, ap, ◌∙◌, Bool, Option, none, some, inl, inr, Bool-cases, Option-cases,
}
use omnimodem.Base.Store.{get-insert_self, get-insert_ne}
use omnimodem.Base.Text.{Text}
use omnimodem.Ids.{DeviceId}
use omnimodem.Ptt.Registry.{PttConfig}
use omnimodem.Channel.{ChannelConfig, ChannelState}
use omnimodem.Persist.{Database, upsert_channel}
use omnimodem.Supervisor.{
  Supervisor, channel_at, configured, update_config, configure_channel, apply, configure_audio,
  configure_ptt,
}
use omnimodem.Supervisor.History.{Call, channel, audio, binding, perform}

abbrev pub target : Call → ℕ
target (channel id name mode rsid_tx rsid_rx) = id
target (audio id device_id sample_rate fanout tx_device_id tx_sample_rate) = id
target (binding id ptt) = id

-- The devices, rates and PTT of a channel, which `configure_channel` is not to touch.
abbrev pub bindings : ChannelState → DeviceId × ℕ × ℕ × DeviceId × ℕ × Option PttConfig × Bool
bindings state = (
  state.config.device_id, state.config.sample_rate, state.config.fanout, state.config.tx_device_id,
  state.config.tx_sample_rate, state.config.ptt, state.running,
)

abbrev pub bindings_of :
    Option ChannelState → Option (DeviceId × ℕ × ℕ × DeviceId × ℕ × Option PttConfig × Bool)
bindings_of none = none
bindings_of (some state) = some (bindings state)

module _ (db : Database) where
  apply-others :
      (id : ℕ) (change : ChannelConfig → ChannelConfig) (s : Supervisor db) (i : ℕ)
      → id ≢ i
      → channel_at i (apply db id change s).1.channels ≡ channel_at i s.channels
  unfolding apply
  apply-others id change s i ne = elim (Option-cases (channel_at id s.channels)) [
    | inl unknown ↦ rw (unknown, apply) refl
    | inr (state, known) ↦
        rw (known, apply)
          (get-insert_ne ℕ_discrete id i record state { config = change state.config } s.channels
            ne)
  ]

  -- No call changes a live channel but its own, whether or not its write succeeds.
  pub perform-others :
      (call : Call) (s : Supervisor db) (i : ℕ)
      → target call ≢ i
      → channel_at i (perform db call s).1.channels ≡ channel_at i s.channels
  unfolding perform configure_channel configure_audio configure_ptt
  perform-others (channel id name mode rsid_tx rsid_rx) s i ne =
      let cfg : ChannelConfig =
        configured id name mode rsid_tx rsid_rx (channel_at id s.channels) in
      elim (Bool-cases (upsert_channel db cfg s.store).0) [
        | inl ok ↦ rw ok (
            get-insert_ne ℕ_discrete id i (update_config cfg (channel_at id s.channels)) s.channels
              ne)
        | inr failed ↦ rw failed refl
      ]
  perform-others (audio id device_id rate fanout tx_id tx_rate) s i ne = apply-others id _ s i ne
  perform-others (binding id ptt) s i ne =
      apply-others id (λ cfg. record cfg { ptt = some ptt }) s i ne

  kept :
      (id : ℕ) (name mode : Text) (rsid_tx rsid_rx : Bool) (o : Option ChannelState)
      → o ≢ none
      → bindings_of (some (update_config (configured id name mode rsid_tx rsid_rx o) o))
        ≡ bindings_of o
  unfolding update_config configured
  kept id name mode rsid_tx rsid_rx none live = absurd (live refl)
  kept id name mode rsid_tx rsid_rx (some state) live = refl

  kept_own :
      (id : ℕ) (name mode : Text) (rsid_tx rsid_rx : Bool) (s : Supervisor db)
      → channel_at id s.channels ≢ none
      → bindings_of (channel_at id (configure_channel db id name mode rsid_tx rsid_rx s).1.channels)
        ≡ bindings_of (channel_at id s.channels)
  unfolding configure_channel
  kept_own id name mode rsid_tx rsid_rx s live =
      let o : Option ChannelState = channel_at id s.channels in
      let cfg : ChannelConfig = configured id name mode rsid_tx rsid_rx o in
      elim (Bool-cases (upsert_channel db cfg s.store).0) [
        | inl ok ↦
            rw (ok, get-insert_self ℕ_discrete id (update_config cfg o) s.channels)
              (kept id name mode rsid_tx rsid_rx o live)
        | inr failed ↦ rw failed refl
      ]

  -- Configuring a live channel again keeps its devices, its rates, its PTT and whether it runs, as
  -- it keeps those of every other channel.
  pub configure_channel-bindings :
      (id : ℕ) (name mode : Text) (rsid_tx rsid_rx : Bool) (s : Supervisor db) (i : ℕ)
      → channel_at i s.channels ≢ none
      → bindings_of (channel_at i (configure_channel db id name mode rsid_tx rsid_rx s).1.channels)
        ≡ bindings_of (channel_at i s.channels)
  unfolding perform
  configure_channel-bindings id name mode rsid_tx rsid_rx s i live = elim (ℕ_discrete id i) [
    | yes same ↦ rw⁻¹ same (
        kept_own id name mode rsid_tx rsid_rx s
          (λ e. live (ap (λ j. channel_at j s.channels) (sym same) ∙ e)))
    | no ne ↦ ap bindings_of (perform-others (channel id name mode rsid_tx rsid_rx) s i ne)
  ]
