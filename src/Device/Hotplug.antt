-- ===== src/Device/Hotplug.antt =====
-- Hotplug detection, crates/omnimodem/src/device/hotplug.rs.
mod Track
mod Tests
use omnimodem.Base.{ℕ, Bool, true, false, List, [], ◌∷◌, ◌++◌, if◌then◌else◌}
use omnimodem.Device.{DeviceDescriptor, ids, has}

pub data HotplugEvent (K : Type 0) : Type 0 where
  arrived : DeviceDescriptor K → HotplugEvent K
  departed : K → HotplugEvent K

module _ {K : Type 0} (same : Discrete K) where
  unfoldable pub arrivals : List (DeviceDescriptor K) → List K → List (HotplugEvent K)
  arrivals [] known = []
  arrivals (d ∷ ds) known =
      let rest = arrivals ds known in if has same d.id known then rest else arrived d ∷ rest

  unfoldable pub departures : List K → List K → List (HotplugEvent K)
  departures [] now_ids = []
  departures (old ∷ olds) now_ids =
      let rest = departures olds now_ids in
      if has same old now_ids then rest else departed old ∷ rest

  -- The events, and the identities that are known from then on. `walk` is the order in which the
  -- hash set is iterated.
  unfoldable pub poll :
      (List K → List K) → List (DeviceDescriptor K) → List K → List (HotplugEvent K) × List K
  poll walk now known = (arrivals now known ++ departures (walk known) (ids now), ids now)

  -- The events of polls one after another, over the snapshots.
  unfoldable pub polls :
      (List K → List K) → List (List (DeviceDescriptor K)) → List K → List (HotplugEvent K) × List K
  polls walk [] known = ([], known)
  polls walk (now ∷ nows) known =
      let (events, known1) = poll walk now known in
      let (more, known2) = polls walk nows known1 in (events ++ more, known2)
