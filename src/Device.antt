-- ===== src/Device.antt =====
-- The devices that are present, crates/omnimodem/src/device. An identity is of any type with
-- decidable equality; the enumeration of the hardware is an argument, the list it returned.
pub mod Hotplug
mod Cache
use mathlib.Core.Logic.{ite}
use omnimodem.Base.{ℕ, Bool, true, false, List, [], ◌∷◌, Option}
use omnimodem.Base.Text.{Text}
use omnimodem.Base.Store.{get, insert}

pub record DeviceDescriptor (K : Type 0) : Type 0 where
  pub id : K
  pub label : Text
  pub has_capture : Bool
  pub has_playback : Bool
  pub needs_setup : Bool

abbrev pub ids : {K : Type 0} → List (DeviceDescriptor K) → List K
ids [] = []
ids (d ∷ ds) = d.id ∷ ids ds

module _ {K : Type 0} (same : Discrete K) where
  -- `HashSet::contains`
  unfoldable pub has : K → List K → Bool
  has x [] = false
  has x (a ∷ as') = ite (same a x) true (has x as')

  -- `DeviceCache::refresh`: the map from the pairs of a snapshot, where a later one replaces an
  -- earlier one.
  unfoldable pub refresh_from :
      List (DeviceDescriptor K) → List (K × DeviceDescriptor K) → List (K × DeviceDescriptor K)
  refresh_from [] present = present
  refresh_from (d ∷ ds) present = refresh_from ds (insert same d.id d present)

  unfoldable pub refresh : List (DeviceDescriptor K) → List (K × DeviceDescriptor K)
  refresh devices = refresh_from devices []

  unfoldable pub resolve : K → List (K × DeviceDescriptor K) → Option (DeviceDescriptor K)
  resolve x present = get same x present
