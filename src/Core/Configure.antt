-- ===== src/Core/Configure.antt =====
-- The commands that configure a channel, in `handle_command`, `configure_audio` and `configure_ptt`
-- of crates/omnimodem/src/core/mod.rs.
use omnimodem.Base.{ℕ, Bool, not, ◌==◌, none, some, inl, inr, if◌then◌else◌}
use omnimodem.Base.Text.{Text}
use omnimodem.Ids.{DeviceId, DeviceId-discrete}
use omnimodem.Device.{refresh}
use omnimodem.Mode.Config
use omnimodem.Ptt.Registry.{PttConfig, build_driver}
use omnimodem.Supervisor.{max_sample_rate}
use omnimodem.Supervisor
use omnimodem.Core.Event.{channel_configured}
use omnimodem.Core.Error.{unknown_channel, unknown_mode, persist, ptt, Result, ok, err}
use omnimodem.Core.Live.{Parts, Mode, AudioBinding, LiveBindings, Core, Host, say}
use omnimodem.Core.Audio.{put, drop_at, or_insert, has_channel, mode_of, reuse_rx, bind_rx, open_tx}

module _ (p : Parts) where
  -- The mode is parsed before anything is written.
  unfoldable pub configure_channel :
      Host p → ℕ → Text → Text → Bool → Bool → Core p → Result Unit × Core p
  configure_channel h id name mode rsid_tx rsid_rx c = elim (Config.parse p.floats mode) [
    | none ↦ (err (unknown_mode mode), c)
    | some m ↦
        let (written, sup) =
          Supervisor.configure_channel p.db id name mode rsid_tx rsid_rx c.supervisor in
        if written
        then (ok tt, say p (channel_configured id) record c { supervisor = sup })
        else (err (persist h.store_error), record c { supervisor = sup })
  ]

  -- The binding is recorded, and the workers that it replaces are dropped.
  unfoldable pub bound : ℕ → AudioBinding p → Bool → LiveBindings p → LiveBindings p
  bound id b reused live = record live {
    audio = put id b live.audio;
    gains = or_insert id p.unity live.gains;
    rx_workers = if reused then live.rx_workers else drop_at id live.rx_workers;
    tx_workers = drop_at id live.tx_workers;
  }

  -- The transmit side, once the receive side has its rate, and the record of both.
  unfoldable pub rebind_tx :
      Host p
      → ℕ
      → DeviceId
      → ℕ
      → DeviceId
      → ℕ
      → Mode p
      → Bool
      → ℕ
      → Core p
      → Result (ℕ × ℕ) × Core p
  rebind_tx h id device_id sample_rate tx_device_id tx_rate_req mode reused rx_rate c =
      let tx = open_tx p h id tx_device_id tx_rate_req c in
      elim (tx.0) [
        | err e ↦ (err e, tx.1)
        | ok tx_rate ↦
            let b : AudioBinding p = record {
              rx_dev = device_id;
              tx_dev = tx_device_id;
              tx_rate = tx_rate;
              rx_req_rate = sample_rate;
              rx_rate = rx_rate;
              rx_mode = mode;
            } in
            (ok (rx_rate, tx_rate), record tx.1 { live = bound id b reused tx.1.live })
      ]

  unfoldable pub rebind_with :
      Host p → ℕ → DeviceId → ℕ → DeviceId → ℕ → Mode p → Bool → Core p → Result (ℕ × ℕ) × Core p
  rebind_with h id device_id sample_rate tx_device_id tx_rate_req mode reused c =
      let rx = bind_rx p h id device_id sample_rate mode reused c in
      elim (rx.0) [
        | err e ↦ (err e, rx.1)
        | ok rx_rate ↦
            rebind_tx h id device_id sample_rate tx_device_id tx_rate_req mode reused rx_rate rx.1
      ]

  -- The devices of a channel, when its configuration is written. The rates that it got.
  unfoldable pub rebind :
      Host p → ℕ → DeviceId → ℕ → DeviceId → ℕ → Core p → Result (ℕ × ℕ) × Core p
  rebind h id device_id sample_rate tx_device_id tx_rate_req c0 =
      let c = record c0 { cache = refresh DeviceId-discrete h.enumerate } in
      let mode = mode_of p id c in
      rebind_with h id device_id sample_rate tx_device_id tx_rate_req mode
        (reuse_rx p id device_id sample_rate mode c.live) c

  -- A rate of 0 is the default's, and for the transmit device that of the receiver.
  unfoldable pub configure_audio :
      Host p → ℕ → DeviceId → ℕ → ℕ → DeviceId → ℕ → Core p → Result (ℕ × ℕ) × Core p
  configure_audio h id device_id requested fanout tx_device_id tx_sample_rate c =
      if not (has_channel p id c)
      then (err (unknown_channel id), c)
      else let sample_rate = if requested == 0 then max_sample_rate else requested in
        let tx_rate_req = if tx_sample_rate == 0 then sample_rate else tx_sample_rate in
        let (written, sup) =
          Supervisor.configure_audio p.db id device_id sample_rate fanout tx_device_id
            tx_sample_rate c.supervisor in
        if written
        then rebind h id device_id sample_rate tx_device_id tx_rate_req
            record c { supervisor = sup }
        else (err (persist h.store_error), record c { supervisor = sup })

  unfoldable pub configure_ptt : Host p → ℕ → PttConfig → Core p → Result Unit × Core p
  configure_ptt h id cfg c =
      if not (has_channel p id c)
      then (err (unknown_channel id), c)
      else let (written, sup) = Supervisor.configure_ptt p.db id cfg c.supervisor in
        if written
        then (let built = build_driver h.open_driver cfg c.ports in
            elim (built.0) [
              | inr e ↦ (err (ptt e), record c { supervisor = sup; ports = built.1 })
              | inl driver ↦ (
                ok tt,
                record c {
                  supervisor = sup;
                  ports = built.1;
                  live = record c.live {
                    drivers = put id driver c.live.drivers;
                    ptt_dev = put id cfg.device_id c.live.ptt_dev;
                  };
                },
              )
            ])
        else (err (persist h.store_error), record c { supervisor = sup })
