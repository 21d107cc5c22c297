-- ===== src/Channel.antt =====
-- A channel's configuration and its live state: crates/omnimodem/src/supervisor/channel.rs.
use omnimodem.Base.{ℕ, Bool, true, Option}
use omnimodem.Base.Text.{Text}
use omnimodem.Ids.{DeviceId}
use omnimodem.Ptt.Registry.{PttConfig}

pub record ChannelConfig : Type 0 where
  pub id : ℕ
  pub name : Text
  pub mode : Text
  pub device_id : DeviceId
  pub sample_rate : ℕ
  pub fanout : ℕ
  pub tx_device_id : DeviceId
  pub tx_sample_rate : ℕ
  pub ptt : Option PttConfig
  pub rsid_tx : Bool
  pub rsid_rx : Bool

pub record ChannelState : Type 0 where
  pub config : ChannelConfig
  pub running : Bool

abbrev pub new_state : ChannelConfig → ChannelState
new_state config = record { config = config; running = true }
