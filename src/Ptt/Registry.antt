-- ===== src/Ptt/Registry.antt =====
-- How a channel's PTT is wired, and which devices have a driver: crates/omnimodem/src/ptt/registry.rs.
use omnimodem.Base.{ℕ, Bool, true, false, ◌⊎◌, inl, inr, List, none, some}
use omnimodem.Base.Store.{get, insert, remove}
use omnimodem.Base.Text.{Text}
use omnimodem.Ids.{DeviceId, DeviceId-discrete}
use omnimodem.Ptt.Driver.{PttError}

pub data PttMethod : Type 0 where
  no_ptt : PttMethod
  vox : PttMethod
  serial_rts : Text → PttMethod
  serial_dtr : Text → PttMethod
  cm108 : Text → ℕ → PttMethod
  gpio : Text → ℕ → PttMethod

pub record PttConfig : Type 0 where
  pub device_id : DeviceId
  pub method : PttMethod
  pub invert : Bool
  pub tx_delay_ms : ℕ
  pub tx_tail_ms : ℕ

-- `PortRegistry`: the identities for which a driver was built. Opening a driver is an argument.
abbrev pub Ports : Type 0
Ports = List (DeviceId × Unit {0})

unfoldable pub build_driver :
    {D : Type 0} → (PttConfig → D ⊎ PttError) → PttConfig → Ports → (D ⊎ PttError) × Ports
build_driver open_driver cfg cache = elim (open_driver cfg) [
  | inr e ↦ (inr e, cache)
  | inl driver ↦ (inl driver, insert DeviceId-discrete cfg.device_id tt cache)
]

unfoldable pub evict : DeviceId → Ports → Ports
evict id cache = remove DeviceId-discrete id cache

unfoldable pub knows : DeviceId → Ports → Bool
knows id cache = elim (get DeviceId-discrete id cache) [ none ↦ false | some u ↦ true ]
