-- ===== src/Core/Error.antt =====
-- The errors of the core and of the audio devices, crates/omnimodem/src/core/error.rs and
-- crates/omnimodem/src/audio/mod.rs, and the two outcomes of a command.
use omnimodem.Base.{ℕ, ◌≡◌, refl, ◌⊎◌, inl, inr}
use omnimodem.Base.Text.{Text}
use omnimodem.Ptt.Driver.{PttError}

pub data AudioError : Type 0 where
  device_not_found : Text → AudioError
  no_usable_format : Text → AudioError
  rate_too_high : ℕ → ℕ → AudioError
  io : Text → AudioError
  unsupported : AudioError
  usb_claim : Text → Text → AudioError
  usb : Text → AudioError
  usb_lost : Text → AudioError
  unsupported_sample_rate : ℕ → AudioError
  unsupported_tuner : AudioError
  tuner_freq_range : ℕ → AudioError

pub data CoreError : Type 0 where
  unknown_channel : ℕ → CoreError
  unknown_mode : Text → CoreError
  picture : Text → CoreError
  persist : Text → CoreError
  audio : AudioError → CoreError
  ptt : PttError → CoreError
  unimplemented : Text → CoreError
  sdr_required : ℕ → CoreError
  invalid_argument : Text → CoreError
  closed : CoreError

-- `Result<A, CoreError>`
pub data Result (A : Type 0) : Type 0 where
  ok : A → Result A
  err : CoreError → Result A

pub Result-cases :
    {A : Type 0} → (r : Result A) → ((a : A) × (r ≡ ok a)) ⊎ ((e : CoreError) × (r ≡ err e))
Result-cases (ok a) = inl (a, refl)
Result-cases (err e) = inr (e, refl)
