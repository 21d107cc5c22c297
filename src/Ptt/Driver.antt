-- ===== src/Ptt/Driver.antt =====
-- The seam to a transmitter's line and the drivers without hardware, crates/omnimodem/src/ptt/mod.rs
-- and ptt/none.rs. The counters a MockPtt shares are its state.
use omnimodem.Base.{ℕ, ◌+◌, ◌%◌, ◌^◌, Bool, true, false, Option, none, some, if◌then◌else◌}
use omnimodem.Base.Text.{Text, codes}

pub data PttError : Type 0 where
  device_gone : Text → PttError
  permission_denied : Text → PttError
  busy : Text → PttError
  config : Text → PttError
  unsupported : PttError
  io : Text → PttError

-- A driver over a state: each method gives the error, if any, and the state it leaves.
pub record PttDriver (S : Type 0) : Type 0 where
  pub key : S → Option PttError × S
  pub unkey : S → Option PttError × S

pub data NonePtt : Type 0 where
  none_ptt : NonePtt

abbrev pub none_driver : PttDriver NonePtt
none_driver = record { key = λ p. (none, p); unkey = λ p. (none, p) }

pub record MockPtt : Type 0 where
  pub keyed : Bool
  pub keys : ℕ
  pub unkeys : ℕ
  pub key_fails : Bool
  pub unkey_fails : Bool

abbrev pub new_mock : MockPtt
new_mock = record { keyed = false; keys = 0; unkeys = 0; key_fails = false; unkey_fails = false }

abbrev pub fail_key : MockPtt → MockPtt
fail_key p = record p { key_fails = true }

abbrev pub fail_unkey : MockPtt → MockPtt
fail_unkey p = record p { unkey_fails = true }

unfoldable pub mock_key : MockPtt → Option PttError × MockPtt
mock_key p =
    if p.key_fails
    then (some (io (codes "mock key failure")), p)
    else (none, record p { keys = (p.keys + 1) % 2 ^ 64; keyed = true })

unfoldable pub mock_unkey : MockPtt → Option PttError × MockPtt
mock_unkey p =
    if p.unkey_fails
    then (some (io (codes "mock unkey failure")), p)
    else (none, record p { unkeys = (p.unkeys + 1) % 2 ^ 64; keyed = false })

abbrev pub mock_driver : PttDriver MockPtt
mock_driver = record { key = mock_key; unkey = mock_unkey }

-- The `Drop` implementation.
unfoldable pub mock_drop : MockPtt → MockPtt
mock_drop p = if p.keyed then (mock_unkey p).1 else p
