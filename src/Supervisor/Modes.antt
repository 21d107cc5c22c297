-- ===== src/Supervisor/Modes.antt =====
-- The modes of the channels that are restored.
use native.Mathlib.Decide.{ℕ_discrete}
use omnimodem.Base.{
  none_ne_some, ℕ, ◌≡◌, ◌≢◌, refl, sym, ap, ◌∙◌, List, [], ◌∷◌, none, some, inl, inr, Option-cases,
}
use omnimodem.Base.Store.{get, get-insert_self, get-insert_ne}
use omnimodem.Base.Text.{codes, split_once, text_eq}
use omnimodem.Channel.{ChannelConfig, ChannelState, new_state}
use omnimodem.Mode.Config.{Floats, no_mode, arm_of, build}
use omnimodem.Mode.Config
use omnimodem.Persist.{Database, load_channels}
use omnimodem.Supervisor.{Supervisor, channel_at, put, coerce_mode, restore, new}

module _ (fl : Floats) where
  none_parsed : Config.parse fl (codes "none") ≡ some no_mode
  unfolding Config.parse split_once arm_of text_eq build
  none_parsed = refl

  coerced : (cfg : ChannelConfig) → Config.parse fl (coerce_mode fl cfg).mode ≢ none
  unfolding coerce_mode
  coerced cfg = elim (Option-cases (Config.parse fl cfg.mode)) [
    | inl unresolved ↦ rw (unresolved, coerce_mode) (λ e. absurd (none_some e))
    | inr (m, e) ↦ rw (e, coerce_mode) (λ e'. cc)
  ]
    where
      none_some : Config.parse fl (codes "none") ≡ none → ⊥
      none_some e = let parsed = none_parsed in cc

  -- Each channel of a map has a mode that resolves.
  abbrev Resolves : List (ℕ × ChannelState) → Type 0
  Resolves channels =
      (i : ℕ) (state : ChannelState)
      → channel_at i channels ≡ some state
      → Config.parse fl state.config.mode ≢ none

  restore-Resolves :
      (cfgs : List ChannelConfig) (channels : List (ℕ × ChannelState))
      → Resolves channels
      → Resolves (restore fl cfgs channels)
  unfolding restore
  restore-Resolves [] channels h = h
  restore-Resolves (cfg ∷ cfgs) channels h =
      restore-Resolves cfgs (put cfg.id (new_state (coerce_mode fl cfg)) channels) (λ i state e.
        elim (ℕ_discrete cfg.id i) [
          | yes same ↦
              let from_put : some (new_state (coerce_mode fl cfg)) ≡ some state =
                sym (get-insert_self ℕ_discrete cfg.id (new_state (coerce_mode fl cfg)) channels)
                ∙ ap (λ j. channel_at j (put cfg.id (new_state (coerce_mode fl cfg)) channels)) same
                ∙ e in
              let this : new_state (coerce_mode fl cfg) ≡ state = cc in rw⁻¹ this (coerced cfg)
          | no ne ↦ h i state (
              sym (get-insert_ne ℕ_discrete cfg.id i (new_state (coerce_mode fl cfg)) channels ne)
              ∙ e)
        ])

  -- Whatever the table holds, every channel of a supervisor that is built over it has a mode that
  -- the parser accepts.
  pub new-Resolves :
      (db : Database) (store : db.Conn) (s : Supervisor db)
      → new fl db store ≡ some s
      → (i : ℕ) (state : ChannelState) → channel_at i s.channels ≡ some state
      → Config.parse fl state.config.mode ≢ none
  unfolding new get
  new-Resolves db store s e = elim (Option-cases (load_channels db store)) [
    | inl unread ↦ absurd (none_ne_some (rw (unread, new) at e))
    | inr (cfgs, loaded) ↦
        let built : some record { channels = restore fl cfgs []; store = store } ≡ some s =
          rw (loaded, new) at e in
        let this : record { channels = restore fl cfgs []; store = store } ≡ s = cc in
        rw⁻¹ this (restore-Resolves cfgs [] (λ i state e. cc))
  ]
