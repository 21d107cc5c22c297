-- ===== src/Supervisor/Restart.antt =====
-- The supervisor, built again over the database of a live one.
use native.Mathlib.Decide.{ℕ_discrete}
use omnimodem.Base.{
  none_ne_some, ℕ, ◌≡◌, ◌≢◌, ◌⊎◌, refl, sym, ap, ◌∙◌, List, [], ◌∷◌, Option, none, some, inl, inr,
  Option-cases, All, IsIn,
}
use omnimodem.Base.Int.{ℤ, pos, negsuc}
use omnimodem.Base.Store.{get, get-insert_self, get-insert_ne}
use omnimodem.Channel.{ChannelConfig, ChannelState, new_state}
use omnimodem.Mode.Config.{Floats}
use omnimodem.Mode.Config
use omnimodem.Persist.{
  Row, Database, DatabaseLaws, encode_row, decode_row, decode_rows, load_channels,
}
use omnimodem.Persist.RoundTrip.{decode_row-encode_row}
use omnimodem.Supervisor.Agreement.{At, Agrees}
use omnimodem.Supervisor.{Supervisor, channel_at, put, coerce_mode, restore, new}

abbrev pub config_of : Option ChannelState → Option ChannelConfig
config_of none = none
config_of (some state) = some state.config

module _ (fl : Floats) (db : Database) (laws : DatabaseLaws db) where
  -- A configuration in the list is the live one of its id, and its mode resolves.
  abbrev Live : Supervisor db → ChannelConfig → Type 0
  Live s cfg = (coerce_mode fl cfg ≡ cfg) × (config_of (channel_at cfg.id s.channels) ≡ some cfg)

  restore_lem :
      (s : Supervisor db) (cfgs : List ChannelConfig) (channels : List (ℕ × ChannelState)) (i : ℕ)
      → All (Live s) cfgs
      → (config_of (channel_at i channels) ≡ config_of (channel_at i s.channels))
        ⊎ ((c : ChannelConfig) × IsIn c cfgs × (c.id ≡ i))
      → config_of (channel_at i (restore fl cfgs channels)) ≡ config_of (channel_at i s.channels)
  unfolding restore
  restore_lem s [] channels i h (inl e) = e
  restore_lem s [] channels i h (inr (d, there, e)) = absurd there
  restore_lem s (c ∷ cs) channels i ((same, live), h) from = elim (ℕ_discrete c.id i) [
    | yes e ↦ restore_lem s cs (put c.id (new_state (coerce_mode fl c)) channels) i h (
        inl (
          rw (← e, get-insert_self ℕ_discrete c.id (new_state (coerce_mode fl c)) channels)
            (ap some same ∙ sym live)))
    | no ne ↦
        restore_lem s cs (put c.id (new_state (coerce_mode fl c)) channels) i h (later ne from)
  ]
    where
      later :
          ¬ (c.id ≡ i)
          → (config_of (channel_at i channels) ≡ config_of (channel_at i s.channels))
            ⊎ ((d : ChannelConfig) × IsIn d (c ∷ cs) × (d.id ≡ i))
          → (config_of (channel_at i (put c.id (new_state (coerce_mode fl c)) channels))
              ≡ config_of (channel_at i s.channels))
            ⊎ ((d : ChannelConfig) × IsIn d cs × (d.id ≡ i))
      later ne (inl e) =
          inl (rw (get-insert_ne ℕ_discrete c.id i (new_state (coerce_mode fl c)) channels ne) e)
      later ne (inr (d, inl e, e_id)) = absurd (ne (ap (λ x. x.id) e ∙ e_id))
      later ne (inr (d, inr there, e_id)) = inr (d, there, e_id)

  -- The live configuration that a row of the table was written from.
  row_live :
      (s : Supervisor db) (r : Row)
      → Agrees db laws s
      → laws.row_of s.store r.id ≡ some r
      → (state : ChannelState) × (decode_row db r ≡ some state.config)
        × (channel_at state.config.id s.channels ≡ some state)
  row_live s r agrees stored = go r.id refl
    where
      at_key :
          (i : ℕ) (o : Option ChannelState)
          → channel_at i s.channels ≡ o
          → At i o (some r)
          → (state : ChannelState) × (decode_row db r ≡ some state.config)
            × (channel_at state.config.id s.channels ≡ some state)
      at_key i none e at = cc
      at_key i (some state) e (written, key, in_range) =
          let same : r ≡ encode_row state.config = cc in
          (
            state,
            ap (decode_row db) same ∙ decode_row-encode_row db laws state.config in_range,
            ap (λ j. channel_at j s.channels) key ∙ e,
          )

      go :
          (k : ℤ)
          → r.id ≡ k
          → (state : ChannelState) × (decode_row db r ≡ some state.config)
            × (channel_at state.config.id s.channels ≡ some state)
      go (negsuc n) e =
          absurd
            (none_ne_some (sym (agrees.no_others n) ∙ ap (laws.row_of s.store) (sym e) ∙ stored))
      go (pos i) e =
          at_key i (channel_at i s.channels) refl
            (rw (ap (laws.row_of s.store) (sym e) ∙ stored) at (agrees.rows i))

  -- The rows in turn, each the live channel of its id.
  decoded :
      (s : Supervisor db) (rows : List Row)
      → Agrees db laws s
      → ((i : ℕ) (state : ChannelState)
          → channel_at i s.channels ≡ some state
          → coerce_mode fl state.config ≡ state.config)
      → All (λ r. laws.row_of s.store r.id ≡ some r) rows
      → (cfgs : List ChannelConfig) × (decode_rows db rows ≡ some cfgs)
        × All (Live s) cfgs
        × ((cfg : ChannelConfig)
            → decode_row db (encode_row cfg) ≡ some cfg
            → IsIn (encode_row cfg) rows
            → IsIn cfg cfgs)
  unfolding decode_rows
  decoded s [] agrees resolves h = ([], refl, tt, λ cfg e there. there)
  decoded s (r ∷ rows) agrees resolves (stored, h) =
      let (state, e_first, live) = row_live s r agrees stored in
      let (cfgs, e_rest, all_live, complete) = decoded s rows agrees resolves h in
      (
        state.config ∷ cfgs,
        rw (e_first, e_rest) refl,
        ((resolves state.config.id state live, ap config_of live), all_live),
        λ cfg e there. elim there [
          | inl same ↦ inl (first state.config cfg e e_first same)
          | inr later ↦ inr (complete cfg e later)
        ],
      )
    where
      first :
          (c cfg : ChannelConfig)
          → decode_row db (encode_row cfg) ≡ some cfg
          → decode_row db r ≡ some c
          → r ≡ encode_row cfg
          → c ≡ cfg
      first c cfg e e_c same = cc

  resolved : (cfg : ChannelConfig) → Config.parse fl cfg.mode ≢ none → coerce_mode fl cfg ≡ cfg
  unfolding coerce_mode
  resolved cfg h = elim (Option-cases (Config.parse fl cfg.mode)) [
    | inl unresolved ↦ absurd (h unresolved)
    | inr (m, e) ↦ rw (e, coerce_mode) refl
  ]

  -- When the database does as is documented of it, the live channels and the table agree, every
  -- live mode resolves and the table can be read, a supervisor that is built over the database has the same configuration for each id,
  -- and no channel for the other ids.
  pub new-restarts :
      (s : Supervisor db) (rows : List Row)
      → Agrees db laws s
      → ((i : ℕ) (state : ChannelState)
          → channel_at i s.channels ≡ some state
          → Config.parse fl state.config.mode ≢ none)
      → db.query s.store ≡ some rows
      → (again : Supervisor db) × (new fl db s.store ≡ some again)
        × ((i : ℕ) → config_of (channel_at i again.channels) ≡ config_of (channel_at i s.channels))
  unfolding new load_channels get
  new-restarts s rows agrees resolves read =
      let (cfgs, e, all_live, complete) =
        decoded s rows agrees (λ i state live. resolved state.config (resolves i state live))
          (laws.rows_stored s.store rows read) in
      (
        record { channels = restore fl cfgs []; store = s.store },
        rw (read, new, load_channels, e) refl,
        λ i. restore_lem s cfgs [] i all_live (known cfgs complete i),
      )
    where
      known :
          (cfgs : List ChannelConfig)
          → ((cfg : ChannelConfig)
              → decode_row db (encode_row cfg) ≡ some cfg
              → IsIn (encode_row cfg) rows
              → IsIn cfg cfgs)
          → (i : ℕ)
          → (none ≡ config_of (channel_at i s.channels))
            ⊎ ((c : ChannelConfig) × IsIn c cfgs × (c.id ≡ i))
      known cfgs complete i = elim (Option-cases (channel_at i s.channels)) [
        | inl absent ↦ inl (rw absent refl)
        | inr (state, e) ↦
            let (written, key, in_range) : At i (some state) (laws.row_of s.store (pos i)) =
              rw e at (agrees.rows i) in
            inr (
              state.config,
              complete state.config (decode_row-encode_row db laws state.config in_range)
                  (laws.rows_complete s.store rows (pos i) (encode_row state.config) read written),
              key,
            )
      ]
