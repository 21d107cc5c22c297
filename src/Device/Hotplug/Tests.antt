-- ===== src/Device/Hotplug/Tests.antt =====
-- The watcher at concrete snapshots; devices are numbers.
use native.Mathlib.Decide.{ℕ_discrete}
use omnimodem.Base.{ℕ, ◌≡◌, refl, true, false, List, [], ◌∷◌}
use omnimodem.Device.{DeviceDescriptor, has}
use omnimodem.Device.Hotplug.{arrived, departed, arrivals, departures, poll, polls}
use omnimodem.Device.Hotplug.Track.{track, track-polls}

abbrev device : ℕ → DeviceDescriptor ℕ
device n = record {
  id = n;
  label = [];
  has_capture = true;
  has_playback = false;
  needs_setup = false;
}

abbrev snapshots : List (List (DeviceDescriptor ℕ))
snapshots = (device 1 ∷ device 2 ∷ []) ∷ (device 2 ∷ device 3 ∷ []) ∷ []

abbrev as_stored : List ℕ → List ℕ
as_stored s = s

events :
    (polls ℕ_discrete as_stored snapshots []).0
    ≡ arrived (device 1) ∷ arrived (device 2) ∷ arrived (device 3) ∷ departed 1 ∷ []
unfolding polls poll arrivals departures has ℕ_discrete
events = refl

track-polls_example :
    track ℕ_discrete 1 (polls ℕ_discrete as_stored snapshots []).0 (has ℕ_discrete 1 [])
    ≡ has ℕ_discrete 1 (polls ℕ_discrete as_stored snapshots []).1
track-polls_example = track-polls ℕ_discrete as_stored snapshots [] 1 (λ s. refl)
