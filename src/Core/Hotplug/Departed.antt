-- ===== src/Core/Hotplug/Departed.antt =====
-- What the departure of a device does to each channel on its own.
use mathlib.Core.Path.{subst}
use mathlib.Core.Logic.{ite, if_pos, if_neg}
use native.Mathlib.Decide.{ℕ_discrete}
use omnimodem.Base.{
  ℕ, ◌≡◌, ◌≢◌, refl, sym, ap, ◌∙◌, Bool, true, false, List, [], ◌∷◌, Option, none, some,
  none_ne_some, arith, inl, inr, if◌then◌else◌, Bool-cases,
}
use omnimodem.Core.Event.{device_departed}
use omnimodem.Base.Store.{get, get-remove_self, get-remove_ne}
use omnimodem.Ids.{DeviceId, DeviceId-discrete}
use omnimodem.Ptt.Registry.{evict}
use omnimodem.Ptt.Sequence.{PlaybackHandle}
use omnimodem.Core.Live.{Parts, AudioBinding, RxWorker, TxHandle, LiveBindings, Core, say}
use omnimodem.Core.Audio.{at, drop_at}
use omnimodem.Core.Hotplug.{
  chans_where, is_device, on_device, keys_device, drop_audio, drop_ptt, drop_audios, drop_ptts,
  depart,
}

unfoldable pub listed : ℕ → List ℕ → Bool
listed id [] = false
listed id (j ∷ ids) = ite (ℕ_discrete j id) true (listed id ids)

-- A test that only channels of the map pass is passed by just the channels listed.
listed-chans_where :
    {A : Type 0} (test : ℕ → Bool) (m : List (ℕ × A)) (id : ℕ)
    → (at id m ≡ none → test id ≡ false)
    → listed id (chans_where test m) ≡ test id
unfolding listed chans_where get
listed-chans_where test [] id absent = sym (absent refl)
listed-chans_where test ((j, a) ∷ m) id absent = elim (ℕ_discrete j id) [
  | yes e ↦ elim (Bool-cases (test j)) [
    | inl picked ↦ rw picked (if_pos (ℕ_discrete j id) e _ _ ∙ sym (ap test (sym e) ∙ picked))
    | inr passed ↦ rw passed (listed-chans_where test m id (λ n. ap test (sym e) ∙ passed))
  ]
  | no ne ↦
      let rest = listed-chans_where test m id (λ n. absent (if_neg (ℕ_discrete j id) ne _ _ ∙ n)) in
      elim (Bool-cases (test j)) [
        | inl picked ↦ rw picked (if_neg (ℕ_discrete j id) ne _ _ ∙ rest)
        | inr passed ↦ rw passed rest
      ]
]

gone : {A : Type 0} (j id : ℕ) (m : List (ℕ × A)) → j ≡ id → at id (drop_at j m) ≡ none
gone j id m e = rw e (get-remove_self ℕ_discrete id m)

module _ (p : Parts) where
  -- What the maps hold of a channel.
  pub record View : Type 0 where
    pub sink : Option PlaybackHandle
    pub capture : Option p.Capture
    pub audio : Option (AudioBinding p)
    pub driver : Option p.Driver
    pub ptt_dev : Option DeviceId
    pub rx_worker : Option (RxWorker p)
    pub tx_worker : Option (TxHandle p)
    pub metrics : Option p.Metrics
    pub gain : Option p.Gain
    pub spectrum : Option p.Spectrum
    pub sdr_control : Option p.Control

  abbrev pub view : ℕ → LiveBindings p → View
  view id live = record {
    sink = at id live.sinks;
    capture = at id live.captures;
    audio = at id live.audio;
    driver = at id live.drivers;
    ptt_dev = at id live.ptt_dev;
    rx_worker = at id live.rx_workers;
    tx_worker = at id live.tx_workers;
    metrics = at id live.metrics;
    gain = at id live.gains;
    spectrum = at id live.spectra;
    sdr_control = at id live.sdr_controls;
  }

  -- A channel without its devices, and one without its PTT.
  abbrev pub no_audio : View → View
  no_audio v = record {
    sink = none;
    capture = none;
    audio = none;
    driver = v.driver;
    ptt_dev = v.ptt_dev;
    rx_worker = none;
    tx_worker = none;
    metrics = none;
    gain = v.gain;
    spectrum = none;
    sdr_control = none;
  }

  abbrev pub no_ptt : View → View
  no_ptt v = record v { driver = none; ptt_dev = none; tx_worker = none }

  unfoldable pub lose_audio : DeviceId → View → View
  lose_audio dev v = if on_device p dev v.audio then no_audio v else v

  unfoldable pub lose_ptt : DeviceId → View → View
  lose_ptt dev v = if keys_device dev v.ptt_dev then no_ptt v else v

  view-drop_audio :
      (j id : ℕ) (live : LiveBindings p)
      → view id (drop_audio p j live)
        ≡ ite (ℕ_discrete j id) (no_audio (view id live)) (view id live)
  unfolding drop_audio
  view-drop_audio j id live = elim (ℕ_discrete j id) [
    | yes e ↦ rw (if_pos (ℕ_discrete j id) e) (λ i. record {
      sink = gone j id live.sinks e i;
      capture = gone j id live.captures e i;
      audio = gone j id live.audio e i;
      driver = at id live.drivers;
      ptt_dev = at id live.ptt_dev;
      rx_worker = gone j id live.rx_workers e i;
      tx_worker = gone j id live.tx_workers e i;
      metrics = gone j id live.metrics e i;
      gain = at id live.gains;
      spectrum = gone j id live.spectra e i;
      sdr_control = gone j id live.sdr_controls e i;
    })
    | no ne ↦ rw (if_neg (ℕ_discrete j id) ne) (λ i. record {
      sink = get-remove_ne ℕ_discrete j id live.sinks ne i;
      capture = get-remove_ne ℕ_discrete j id live.captures ne i;
      audio = get-remove_ne ℕ_discrete j id live.audio ne i;
      driver = at id live.drivers;
      ptt_dev = at id live.ptt_dev;
      rx_worker = get-remove_ne ℕ_discrete j id live.rx_workers ne i;
      tx_worker = get-remove_ne ℕ_discrete j id live.tx_workers ne i;
      metrics = get-remove_ne ℕ_discrete j id live.metrics ne i;
      gain = at id live.gains;
      spectrum = get-remove_ne ℕ_discrete j id live.spectra ne i;
      sdr_control = get-remove_ne ℕ_discrete j id live.sdr_controls ne i;
    })
  ]

  view-drop_ptt :
      (j id : ℕ) (live : LiveBindings p)
      → view id (drop_ptt p j live) ≡ ite (ℕ_discrete j id) (no_ptt (view id live)) (view id live)
  unfolding drop_ptt
  view-drop_ptt j id live = elim (ℕ_discrete j id) [
    | yes e ↦ rw (if_pos (ℕ_discrete j id) e) (λ i. record {
      sink = at id live.sinks;
      capture = at id live.captures;
      audio = at id live.audio;
      driver = gone j id live.drivers e i;
      ptt_dev = gone j id live.ptt_dev e i;
      rx_worker = at id live.rx_workers;
      tx_worker = gone j id live.tx_workers e i;
      metrics = at id live.metrics;
      gain = at id live.gains;
      spectrum = at id live.spectra;
      sdr_control = at id live.sdr_controls;
    })
    | no ne ↦ rw (if_neg (ℕ_discrete j id) ne) (λ i. record {
      sink = at id live.sinks;
      capture = at id live.captures;
      audio = at id live.audio;
      driver = get-remove_ne ℕ_discrete j id live.drivers ne i;
      ptt_dev = get-remove_ne ℕ_discrete j id live.ptt_dev ne i;
      rx_worker = at id live.rx_workers;
      tx_worker = get-remove_ne ℕ_discrete j id live.tx_workers ne i;
      metrics = at id live.metrics;
      gain = at id live.gains;
      spectrum = at id live.spectra;
      sdr_control = at id live.sdr_controls;
    })
  ]

  view-drop_audios :
      (ids : List ℕ) (id : ℕ) (c : Core p)
      → view id (drop_audios p ids c).live
        ≡ (if listed id ids then no_audio (view id c.live) else view id c.live)
  unfolding drop_audios listed
  view-drop_audios [] id c = refl
  view-drop_audios (j ∷ ids) id c =
      view-drop_audios ids id _
      ∙ ap (λ v. if listed id ids then no_audio v else v) (view-drop_audio j id c.live)
      ∙ ground arith

  view-drop_ptts :
      (ids : List ℕ) (id : ℕ) (c : Core p)
      → view id (drop_ptts p ids c).live
        ≡ (if listed id ids then no_ptt (view id c.live) else view id c.live)
  unfolding drop_ptts listed
  view-drop_ptts [] id c = refl
  view-drop_ptts (j ∷ ids) id c =
      view-drop_ptts ids id _
      ∙ ap (λ v. if listed id ids then no_ptt v else v) (view-drop_ptt j id c.live)
      ∙ ground arith

  -- The departure of a device does to each channel what it does to it alone: a channel that
  -- receives or transmits on the device loses its streams, its binding, its workers and its cells
  -- but the gain, one whose PTT is on the device loses its driver and its transmit worker, and
  -- every other channel keeps all that it has.
  pub depart-view :
      (dev : DeviceId) (c : Core p) (id : ℕ)
      → view id (depart p dev c).live ≡ lose_ptt dev (lose_audio dev (view id c.live))
  unfolding depart say lose_audio lose_ptt on_device keys_device
  depart-view dev c id =
      let begun : Core p = record (say p (device_departed dev) c) { ports = evict dev c.ports } in
      let used : ℕ → Bool = λ j. on_device p dev (at j c.live.audio) in
      let first : Core p = drop_audios p (chans_where used c.live.audio) begun in
      let keyed : ℕ → Bool = λ j. keys_device dev (at j first.live.ptt_dev) in
      view-drop_ptts (chans_where keyed first.live.ptt_dev) id first
      ∙ ap (λ b. if b then no_ptt (view id first.live) else view id first.live)
          (listed-chans_where keyed first.live.ptt_dev id (λ free. ap (keys_device dev) free))
      ∙ ap (lose_ptt dev) (
          view-drop_audios (chans_where used c.live.audio) id begun
          ∙ ap (λ b. if b then no_audio (view id c.live) else view id c.live)
              (listed-chans_where used c.live.audio id (λ free. ap (on_device p dev) free)))

  is_device_self : (a b : DeviceId) → a ≡ b → is_device a b ≡ true
  is_device_self a b e = if_pos (DeviceId-discrete a b) e true false

  -- No binding is on the device any more.
  abbrev pub IsClear : DeviceId → View → Type 0
  IsClear dev v =
      ((b : AudioBinding p) → v.audio ≡ some b → (b.rx_dev ≢ dev) × (b.tx_dev ≢ dev))
      × (v.ptt_dev ≢ some dev)

  off_device :
      (dev : DeviceId) (b : AudioBinding p)
      → on_device p dev (some b) ≡ false
      → (b.rx_dev ≢ dev) × (b.tx_dev ≢ dev)
  unfolding on_device
  off_device dev b off = (
    (λ e. cc (is_device_self b.rx_dev dev e)),
    λ e. ground (arith, is_device_self b.tx_dev dev e),
  )

  clear_audio :
      (dev : DeviceId) (v : View) (b : AudioBinding p)
      → (lose_audio dev v).audio ≡ some b
      → (b.rx_dev ≢ dev) × (b.tx_dev ≢ dev)
  unfolding lose_audio
  clear_audio dev v b e = elim (Bool-cases (on_device p dev v.audio)) [
    | inl on ↦ absurd (none_ne_some (rw (on, lose_audio) at e))
    | inr off ↦
        let kept : v.audio ≡ some b = rw (off, lose_audio) at e in
        off_device dev b (ap (on_device p dev) (sym kept) ∙ off)
  ]

  same_audio : (dev : DeviceId) (v : View) → (lose_ptt dev v).audio ≡ v.audio
  unfolding lose_ptt
  same_audio dev v = elim (Bool-cases (keys_device dev v.ptt_dev)) [
    | inl on ↦ rw on refl
    | inr off ↦ rw off refl
  ]

  clear_ptt : (dev : DeviceId) (v : View) → (lose_ptt dev v).ptt_dev ≢ some dev
  unfolding lose_ptt keys_device
  clear_ptt dev v e = elim (Bool-cases (keys_device dev v.ptt_dev)) [
    | inl on ↦ absurd (none_ne_some (rw (on, lose_ptt) at e))
    | inr off ↦
        let kept : v.ptt_dev ≡ some dev = rw (off, lose_ptt) at e in
        let seen : is_device dev dev ≡ false = ap (keys_device dev) (sym kept) ∙ off in
        cc (is_device_self dev dev refl)
  ]

  -- When the core has dealt with the departure of a device, no channel's binding names it, for
  -- reception, transmission or PTT.
  pub depart-IsClear :
      (dev : DeviceId) (c : Core p) (id : ℕ) → IsClear dev (view id (depart p dev c).live)
  depart-IsClear dev c id = subst (IsClear dev) (sym (depart-view dev c id)) (
    (λ b e.
        clear_audio dev (view id c.live) b
          (sym (same_audio dev (lose_audio dev (view id c.live))) ∙ e)),
    clear_ptt dev (lose_audio dev (view id c.live)),
  )
