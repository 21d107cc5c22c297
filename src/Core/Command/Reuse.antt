-- ===== src/Core/Command/Reuse.antt =====
-- Binding a channel again to the device that it is receiving on.
use mathlib.Core.Logic.{if_pos}
use omnimodem.Base.{ℕ, ◌≡◌, refl, sym, ap, ◌∙◌, true, ◌⊎◌, inl, inr, some, ==_iff}
use omnimodem.Ids.{DeviceId, DeviceId-discrete}
use omnimodem.Device.{DeviceDescriptor, refresh}
use omnimodem.Core.Error.{AudioError, Result, ok, Result-cases}
use omnimodem.Core.Live.{Parts, Mode, AudioBinding, RxWorker, Core, Host}
use omnimodem.Core.Audio.{at, mode_of, rx_running, same_binding, reuse_rx, bind_rx, open_tx}
use omnimodem.Core.Configure.{bound, rebind_tx, rebind_with, rebind}
use omnimodem.Core.Command.Bound.{open_tx-Same}

module _ (p : Parts) where
  -- The channel receives, by a worker that runs, on this device, at this rate and in its mode.
  pub record IsReceiving (id : ℕ) (dev : DeviceId) (rate : ℕ) (c : Core p) : Type 0 where
    pub worker : RxWorker p
    pub binding : AudioBinding p
    pub has_worker : at id c.live.rx_workers ≡ some worker
    pub runs : worker.is_running ≡ true
    pub has_binding : at id c.live.audio ≡ some binding
    pub on_device : binding.rx_dev ≡ dev
    pub at_rate : binding.rx_req_rate ≡ rate
    pub in_mode : p.same_mode binding.rx_mode (mode_of p id c) ≡ true

  receiving-reuse :
      (id : ℕ) (dev : DeviceId) (rate : ℕ) (c : Core p)
      → (r : IsReceiving id dev rate c) → reuse_rx p id dev rate (mode_of p id c) c.live ≡ true
  unfolding reuse_rx rx_running same_binding
  receiving-reuse id dev rate c r =
      rw
        (
          r.has_worker,
          rx_running,
          r.runs,
          r.has_binding,
          same_binding,
          if_pos (DeviceId-discrete r.binding.rx_dev dev) r.on_device,
          (==_iff r.binding.rx_req_rate rate).1 r.at_rate,
          r.in_mode,
        )
        refl

  to_tx :
      (h : Host p) (id : ℕ) (dev : DeviceId) (rate : ℕ) (tx_dev : DeviceId) (tx_rate : ℕ)
      (c : Core p) (r : IsReceiving id dev rate c)
      → rebind p h id dev rate tx_dev tx_rate c
        ≡ rebind_tx p h id dev rate tx_dev tx_rate
            (mode_of p id c)
            true
            r.binding.rx_rate
            record c { cache = refresh DeviceId-discrete h.enumerate }
  unfolding rebind rebind_with bind_rx
  to_tx h id dev rate tx_dev tx_rate c r =
      let fresh : Core p = record c { cache = refresh DeviceId-discrete h.enumerate } in
      ap (λ reused. rebind_with p h id dev rate tx_dev tx_rate (mode_of p id c) reused fresh)
        (receiving-reuse id dev rate c r)
      ∙ rw r.has_binding refl

  any_opener :
      (h : Host p) (open_capture : DeviceDescriptor DeviceId → ℕ → (p.Capture × ℕ) ⊎ AudioError)
      (id : ℕ) (dev : DeviceId) (rate : ℕ) (tx_dev : DeviceId) (tx_rate : ℕ) (mode : Mode p)
      (rx_rate : ℕ) (c : Core p)
      → rebind_tx p
          (record h { open_capture = open_capture })
          id
          dev
          rate
          tx_dev
          tx_rate
          mode
          true
          rx_rate
          c
        ≡ rebind_tx p h id dev rate tx_dev tx_rate mode true rx_rate c
  unfolding rebind_tx open_tx
  any_opener h open_capture id dev rate tx_dev tx_rate mode rx_rate c = refl

  rebind_tx-keeps :
      (h : Host p) (id : ℕ) (dev : DeviceId) (rate : ℕ) (tx_dev : DeviceId) (tx_rate : ℕ)
      (mode : Mode p) (rx_rate : ℕ) (c : Core p)
      → let result = rebind_tx p h id dev rate tx_dev tx_rate mode true rx_rate c in
        (at id result.1.live.rx_workers ≡ at id c.live.rx_workers)
        × ((rates : ℕ × ℕ) → result.0 ≡ ok rates → rates.0 ≡ rx_rate)
  unfolding rebind_tx bound
  rebind_tx-keeps h id dev rate tx_dev tx_rate mode rx_rate c =
      let opened : Result ℕ × Core p = open_tx p h id tx_dev tx_rate c in
      let (rx, tx, audio, drivers) = open_tx-Same p h id tx_dev tx_rate c in
      elim (Result-cases opened.0) [
        | inr (e, failed) ↦ rw (failed, rebind_tx) (ap (at id) rx, λ rates e. cc)
        | inl (got, ok_tx) ↦ rw (ok_tx, rebind_tx) (ap (at id) rx, λ rates e. cc)
      ]

  -- A channel that is already receiving on the device, at the requested rate and in its mode, is
  -- bound again without opening the stream: the result is the same whatever opening it would
  -- give, the worker that has the stream stays, and the rate answered is that of the stream.
  pub rebind-reuses :
      (h : Host p) (open_capture : DeviceDescriptor DeviceId → ℕ → (p.Capture × ℕ) ⊎ AudioError)
      (id : ℕ) (dev : DeviceId) (rate : ℕ) (tx_dev : DeviceId) (tx_rate : ℕ) (c : Core p)
      (r : IsReceiving id dev rate c)
      → let result = rebind p h id dev rate tx_dev tx_rate c in
        (rebind p (record h { open_capture = open_capture }) id dev rate tx_dev tx_rate c ≡ result)
        × (at id result.1.live.rx_workers ≡ some r.worker)
        × ((rates : ℕ × ℕ) → result.0 ≡ ok rates → rates.0 ≡ r.binding.rx_rate)
  rebind-reuses h open_capture id dev rate tx_dev tx_rate c r =
      let same = to_tx h id dev rate tx_dev tx_rate c r in
      let kept =
        rebind_tx-keeps h id dev rate tx_dev tx_rate (mode_of p id c) r.binding.rx_rate
          record c { cache = refresh DeviceId-discrete h.enumerate } in
      (
        to_tx (record h { open_capture = open_capture }) id dev rate tx_dev tx_rate c r
            ∙ any_opener h open_capture id dev rate tx_dev tx_rate (mode_of p id c) _ _
            ∙ sym same,
        ap (λ x. at id x.1.live.rx_workers) same ∙ kept.0 ∙ r.has_worker,
        λ rates e. kept.1 rates (sym (ap (λ x. x.0) same) ∙ e),
      )
