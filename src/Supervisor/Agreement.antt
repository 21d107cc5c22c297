-- ===== src/Supervisor/Agreement.antt =====
-- The live channels and the rows of the database, and what a write does to both.
use native.Mathlib.Decide.{ℕ_discrete}
use omnimodem.Base.{
  ℕ, ◌<◌, ◌^◌, ◌≡◌, refl, sym, ap, ◌∙◌, Bool, true, false, Option, none, some, arith, inl, inr,
  Bool-cases, Option-cases,
}
use omnimodem.Base.Int.{ℤ, pos, negsuc}
use omnimodem.Base.Store.{get-insert_self, get-insert_ne}
use omnimodem.Base.Text.{Text}
use omnimodem.Channel.{ChannelConfig, ChannelState}
use omnimodem.Persist.{Row, Database, DatabaseLaws, upsert_channel, encode_row}
use omnimodem.Persist.RoundTrip.{IsChannel}
use omnimodem.Supervisor.{
  Supervisor, channel_at, put, configured, update_config, configure_channel, apply,
}

-- What the table is to hold of a channel: no row, or the row of its configuration.
abbrev pub At : ℕ → Option ChannelState → Option Row → Type 0
At i none row = row ≡ none
At i (some state) row =
    (row ≡ some (encode_row state.config)) × (state.config.id ≡ i) × IsChannel state.config

module _ (db : Database) (laws : DatabaseLaws db) where
  -- Each live channel is the row of its id, each row is a live channel, and the numbers of a
  -- channel are in the range of their types.
  pub record Agrees (s : Supervisor db) : Type 0 where
    pub rows : (i : ℕ) → At i (channel_at i s.channels) (laws.row_of s.store (pos i))
    pub no_others : (n : ℕ) → laws.row_of s.store (negsuc n) ≡ none

  -- A write that succeeds, with the channel that is written.
  written-At :
      (i : ℕ) (state : ChannelState) (s : Supervisor db)
      → Agrees s
      → IsChannel state.config
      → (upsert_channel db state.config s.store).0 ≡ true
      → At i
          (channel_at i (put state.config.id state s.channels))
          (laws.row_of (upsert_channel db state.config s.store).1 (pos i))
  unfolding upsert_channel encode_row
  written-At i state s h ok_state ok = elim (ℕ_discrete state.config.id i) [
    | yes e ↦
        rw (← e, get-insert_self ℕ_discrete state.config.id state s.channels)
          (laws.upserted (encode_row state.config) s.store ok, refl, ok_state)
    | no ne ↦
        rw
          (
            get-insert_ne ℕ_discrete state.config.id i state s.channels ne,
            laws.others_kept (encode_row state.config) s.store (pos i) ok
                (λ e. ne (sym (ap from_pos e))),
          )
          (h.rows i)
  ]
    where
      from_pos : ℤ → ℕ
      from_pos (pos n) = n
      from_pos (negsuc n) = 0

  written :
      (state : ChannelState) (s : Supervisor db)
      → Agrees s
      → IsChannel state.config
      → (upsert_channel db state.config s.store).0 ≡ true
      → Agrees record {
        channels = put state.config.id state s.channels;
        store = (upsert_channel db state.config s.store).1;
      }
  unfolding upsert_channel encode_row
  written state s h ok_state ok = record {
    rows = λ i. written-At i state s h ok_state ok;
    no_others = λ n.
        laws.others_kept (encode_row state.config) s.store (negsuc n) ok (λ e. cc) ∙ h.no_others n;
  }

  written_as :
      (id : ℕ) (cfg : ChannelConfig) (state : ChannelState) (s : Supervisor db)
      → state.config ≡ cfg
      → cfg.id ≡ id
      → Agrees s
      → IsChannel cfg
      → (upsert_channel db cfg s.store).0 ≡ true
      → Agrees
          record { channels = put id state s.channels; store = (upsert_channel db cfg s.store).1 }
  written_as id cfg state s e_cfg e_id h ok_cfg ok =
      rw (← e_id, ← e_cfg) (written state s h (rw e_cfg ok_cfg) (rw e_cfg ok))

  -- A write that fails.
  not_written :
      (cfg : ChannelConfig) (s : Supervisor db)
      → Agrees s
      → (upsert_channel db cfg s.store).0 ≡ false
      → Agrees record { channels = s.channels; store = (upsert_channel db cfg s.store).1 }
  unfolding upsert_channel
  not_written cfg s h failed = record {
    rows = λ i. rw (laws.failed_kept (encode_row cfg) s.store (pos i) failed) (h.rows i);
    no_others = λ n. laws.failed_kept (encode_row cfg) s.store (negsuc n) failed ∙ h.no_others n;
  }

  configured_lem :
      (id : ℕ) (name mode : Text) (rsid_tx rsid_rx : Bool) (o : Option ChannelState)
      (row : Option Row)
      → id < 2 ^ 32
      → At id o row
      → ((configured id name mode rsid_tx rsid_rx o).id ≡ id)
        × IsChannel (configured id name mode rsid_tx rsid_rx o)
  unfolding configured
  configured_lem id name mode rsid_tx rsid_rx none row h at = (
    refl,
    record {
      id = h;
      device = tt;
      sample_rate = omega arith;
      fanout = omega arith;
      tx_device = tt;
      tx_sample_rate = omega arith;
      ptt = tt;
    },
  )
  configured_lem id name mode rsid_tx rsid_rx (some state) row h (e_row, e_id, ok) = (
    e_id,
    record {
      id = ok.id;
      device = ok.device;
      sample_rate = ok.sample_rate;
      fanout = ok.fanout;
      tx_device = ok.tx_device;
      tx_sample_rate = ok.tx_sample_rate;
      ptt = ok.ptt;
    },
  )

  updated : (cfg : ChannelConfig) (o : Option ChannelState) → (update_config cfg o).config ≡ cfg
  unfolding update_config
  updated cfg none = refl
  updated cfg (some state) = refl

  -- Whether or not the write succeeds, `configure_channel` keeps the channels and the table in
  -- agreement, for an id of 32 bits.
  pub configure_channel-Agrees :
      (id : ℕ) (name mode : Text) (rsid_tx rsid_rx : Bool) (s : Supervisor db)
      → id < 2 ^ 32
      → Agrees s
      → Agrees (configure_channel db id name mode rsid_tx rsid_rx s).1
  unfolding configure_channel
  configure_channel-Agrees id name mode rsid_tx rsid_rx s h agrees =
      let o : Option ChannelState = channel_at id s.channels in
      let cfg : ChannelConfig = configured id name mode rsid_tx rsid_rx o in
      let (e_id, ok_cfg) = configured_lem id name mode rsid_tx rsid_rx o _ h (agrees.rows id) in
      elim (Bool-cases (upsert_channel db cfg s.store).0) [
        | inl ok ↦
            rw ok (written_as id cfg (update_config cfg o) s (updated cfg o) e_id agrees ok_cfg ok)
        | inr failed ↦ rw failed (not_written cfg s agrees failed)
      ]

  pub apply-Agrees :
      (id : ℕ) (change : ChannelConfig → ChannelConfig) (s : Supervisor db)
      → ((cfg : ChannelConfig)
          → IsChannel cfg
          → ((change cfg).id ≡ cfg.id) × IsChannel (change cfg))
      → Agrees s
      → (apply db id change s).0 ≡ true
      → Agrees (apply db id change s).1
  unfolding apply
  apply-Agrees id change s keeps agrees ok = elim (Option-cases (channel_at id s.channels)) [
    | inl unknown ↦ rw (unknown, apply) agrees
    | inr (state, known) ↦
        let (e_row, e_id, in_range) : At id (some state) (laws.row_of s.store (pos id)) =
          rw known at (agrees.rows id) in
        let (kept, changed) = keeps state.config in_range in
        rw (known, apply)
          (written_as id (change state.config) record state { config = change state.config } s refl
            (kept ∙ e_id) agrees changed (rw (known, apply) at ok))
  ]
