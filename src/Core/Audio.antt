-- ===== src/Core/Audio.antt =====
-- Binding a channel to its devices and to its PTT: `configure_audio` and `configure_ptt` of
-- crates/omnimodem/src/core/mod.rs.
use mathlib.Core.Logic.{ite}
use native.Mathlib.Decide.{ℕ_discrete}
use omnimodem.Base.{
  ℕ, Bool, true, false, ◌&&◌, ◌||◌, ◌==◌, List, ◌∷◌, ◌++◌, Option, none, some, ◌⊎◌, inl, inr,
  if◌then◌else◌,
}
use omnimodem.Base.Store.{get, insert, remove}
use omnimodem.Base.Text.{codes, decimal}
use omnimodem.Ids.{DeviceId, DeviceId-discrete, rtl_tcp, is_sdr, to_canonical_string}
use omnimodem.Device.{DeviceDescriptor, resolve}
use omnimodem.Ptt.Sequence.{PlaybackHandle}
use omnimodem.Supervisor.{channel_mode}
use omnimodem.Core.Error.{
  AudioError, device_not_found, no_usable_format, unsupported, audio, Result, ok, err,
}
use omnimodem.Core.Live.{Parts, Mode, AudioBinding, LiveBindings, Core, Host}

abbrev pub at : {A : Type 0} → ℕ → List (ℕ × A) → Option A
at id m = get ℕ_discrete id m

abbrev pub put : {A : Type 0} → ℕ → A → List (ℕ × A) → List (ℕ × A)
put id a m = insert ℕ_discrete id a m

abbrev pub drop_at : {A : Type 0} → ℕ → List (ℕ × A) → List (ℕ × A)
drop_at id m = remove ℕ_discrete id m

abbrev pub has : {A : Type 0} → ℕ → List (ℕ × A) → Bool
has id m = elim (at id m) [ none ↦ false | some a ↦ true ]

-- `entry(id).or_insert(a)`
unfoldable pub or_insert : {A : Type 0} → ℕ → A → List (ℕ × A) → List (ℕ × A)
or_insert id a m = elim (at id m) [ none ↦ put id a m | some b ↦ m ]

abbrev or_else : {A : Type 0} → A → Option A → A
or_else a none = a
or_else a (some b) = b

-- An `rtl_tcp` endpoint needs no enumeration.
unfoldable pub find_device :
    DeviceId → List (DeviceId × DeviceDescriptor DeviceId) → DeviceDescriptor DeviceId ⊎ AudioError
find_device (rtl_tcp host port) cache = inl record {
  id = rtl_tcp host port;
  label = codes "rtl_tcp " ++ (host ++ (b':' ∷ decimal port));
  has_capture = true;
  has_playback = false;
  needs_setup = false;
}
find_device dev cache = elim (resolve DeviceId-discrete dev cache) [
  | none ↦ inr (device_not_found (to_canonical_string dev))
  | some d ↦ inl d
]

module _ (p : Parts) where
  unfoldable pub has_channel : ℕ → Core p → Bool
  has_channel id c = has id c.supervisor.channels

  abbrev pub mode_of : ℕ → Core p → Mode p
  mode_of id c = channel_mode p.floats id c.supervisor.channels

  unfoldable pub rx_running : ℕ → LiveBindings p → Bool
  rx_running id live =
      elim (at id live.rx_workers) [ none ↦ false | some w ↦ w.is_running ] || has id live.captures

  -- Whether a binding was made for this device, at this requested rate and in this mode.
  unfoldable pub same_binding : DeviceId → ℕ → Mode p → AudioBinding p → Bool
  same_binding device_id sample_rate mode b =
      (ite (DeviceId-discrete b.rx_dev device_id) true false && b.rx_req_rate == sample_rate)
      && p.same_mode b.rx_mode mode

  unfoldable pub reuse_rx : ℕ → DeviceId → ℕ → Mode p → LiveBindings p → Bool
  reuse_rx id device_id sample_rate mode live = rx_running id live && elim (at id live.audio) [
    | none ↦ false
    | some b ↦ same_binding device_id sample_rate mode b
  ]

  -- The control cell of a device that is a receiver, coupled to the mode; of no other device.
  unfoldable pub couple_control : ℕ → DeviceId → Mode p → LiveBindings p → LiveBindings p
  couple_control id device_id mode live =
      if is_sdr device_id
      then record live {
        sdr_controls =
            put id (p.couple mode (or_else p.new_control (at id live.sdr_controls)))
              live.sdr_controls;
      }
      else record live { sdr_controls = drop_at id live.sdr_controls }

  -- The rate of the stream, opened or as it is.
  unfoldable pub open_rx : Host p → ℕ → DeviceId → ℕ → Mode p → Core p → Result ℕ × Core p
  open_rx h id device_id sample_rate mode c = elim (find_device device_id c.cache) [
    | inr e ↦ (err (audio e), c)
    | inl rx_desc ↦
        let live = couple_control id device_id mode c.live in
        elim (h.open_capture rx_desc sample_rate) [
          | inr e ↦ (err (audio e), record c { live = live })
          | inl (capture, rate) ↦
              (ok rate, record c { live = record live { captures = put id capture live.captures } })
        ]
  ]

  unfoldable pub bind_rx : Host p → ℕ → DeviceId → ℕ → Mode p → Bool → Core p → Result ℕ × Core p
  bind_rx h id device_id sample_rate mode reused c =
      if reused
      then (ok (elim (at id c.live.audio) [ none ↦ sample_rate | some b ↦ b.rx_rate ]), c)
      else open_rx h id device_id sample_rate mode c

  abbrev rx_only : ℕ → Core p → Core p
  rx_only id c = record c { live = record c.live { sinks = drop_at id c.live.sinks } }

  -- A device that cannot play leaves the channel without a sink, at rate 0.
  unfoldable pub opened_tx : ℕ → (PlaybackHandle × ℕ) ⊎ AudioError → Core p → Result ℕ × Core p
  opened_tx id (inl (sink, rate)) c =
      (ok rate, record c { live = record c.live { sinks = put id sink c.live.sinks } })
  opened_tx id (inr (no_usable_format device)) c = (ok 0, rx_only id c)
  opened_tx id (inr unsupported) c = (ok 0, rx_only id c)
  opened_tx id (inr e) c = (err (audio e), c)

  unfoldable pub open_tx : Host p → ℕ → DeviceId → ℕ → Core p → Result ℕ × Core p
  open_tx h id tx_device_id tx_rate_req c = elim (find_device tx_device_id c.cache) [
    | inr e ↦ (err (audio e), c)
    | inl tx_desc ↦ opened_tx id (h.open_playback tx_desc tx_rate_req) c
  ]
