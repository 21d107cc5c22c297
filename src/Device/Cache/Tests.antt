-- ===== src/Device/Cache/Tests.antt =====
-- The device cache at a concrete snapshot; devices are numbers.
use native.Mathlib.Decide.{ℕ_discrete}
use omnimodem.Base.{ℕ, ◌≡◌, Bool, true, false, List, [], ◌∷◌}
use omnimodem.Device.{DeviceDescriptor, refresh, resolve}
use omnimodem.Device.Cache.{last_with, resolve-refresh}

abbrev device : ℕ → Bool → DeviceDescriptor ℕ
device n capture = record {
  id = n;
  label = [];
  has_capture = capture;
  has_playback = true;
  needs_setup = false;
}

abbrev snapshot : List (DeviceDescriptor ℕ)
snapshot = device 1 true ∷ device 2 true ∷ device 1 false ∷ []

resolve-refresh_run :
    resolve ℕ_discrete 1 (refresh ℕ_discrete snapshot) ≡ last_with ℕ_discrete 1 snapshot
resolve-refresh_run = resolve-refresh ℕ_discrete 1 snapshot
