-- ===== src/Core/Event.antt =====
-- What the core reports: the telemetry of crates/omnimodem/src/core/event.rs, as far as the modelled
-- parts send it, and a frame's payload, crates/dsp/src/types.rs.
use omnimodem.Base.{ℕ, Bool, List}
use omnimodem.Base.Text.{Text}
use omnimodem.Ids.{DeviceId}

pub data TelemetryEvent : Type 0 where
  channel_configured : ℕ → TelemetryEvent
  transmit_started : ℕ → ℕ → TelemetryEvent
  transmit_complete : ℕ → ℕ → TelemetryEvent
  transmit_failed : ℕ → ℕ → Text → TelemetryEvent
  device_arrived : DeviceId → Text → TelemetryEvent
  device_departed : DeviceId → TelemetryEvent
  ptt_keyed : ℕ → Bool → TelemetryEvent

pub data FramePayload : Type 0 where
  packet : List ℕ → FramePayload
  text : Text → FramePayload
  message77 : List ℕ → FramePayload
  vocoder : List ℕ → FramePayload
  image : ℕ → ℕ → List ℕ → FramePayload

pub record Frame (Meta : Type 0) : Type 0 where
  pub payload : FramePayload
  pub meta : Meta
