-- ===== src/Device/Cache.antt =====
-- Lookups in a device cache after a refresh.
mod Tests
use mathlib.Core.Logic.{ite}
use omnimodem.Base.{
  ℕ, ◌≡◌, refl, ◌∙◌, ap, Bool, List, [], ◌∷◌, Option, none, some, arith, inl, inr, Option-cases,
}
use omnimodem.Base.Store.{get, insert, get-insert}
use omnimodem.Device.{DeviceDescriptor, refresh_from, refresh, resolve}

module _ {K : Type 0} (same : Discrete K) where
  -- The last descriptor of a snapshot with an identity.
  unfoldable pub last_with : K → List (DeviceDescriptor K) → Option (DeviceDescriptor K)
  last_with x [] = none
  last_with x (d ∷ ds) = elim (last_with x ds) [
    | some later ↦ some later
    | none ↦ ite (same d.id x) (some d) none
  ]

  abbrev or_else :
      Option (DeviceDescriptor K) → Option (DeviceDescriptor K) → Option (DeviceDescriptor K)
  or_else none other = other
  or_else (some d) other = some d

  refresh_lookup :
      (x : K) (ds : List (DeviceDescriptor K)) (present : List (K × DeviceDescriptor K))
      → get same x (refresh_from same ds present) ≡ or_else (last_with x ds) (get same x present)
  unfolding refresh_from last_with
  refresh_lookup x [] present = refl
  refresh_lookup x (d ∷ ds) present =
      refresh_lookup x ds (insert same d.id d present)
      ∙ ap (or_else (last_with x ds)) (get-insert same d.id x d present)
      ∙ ground arith

  -- After a refresh a device is resolved to its last descriptor in the snapshot, and to none if
  -- the snapshot does not have it; what the cache held before is forgotten.
  pub resolve-refresh :
      (x : K) (devices : List (DeviceDescriptor K))
      → resolve same x (refresh same devices) ≡ last_with x devices
  unfolding resolve refresh get
  resolve-refresh x devices = refresh_lookup x devices [] ∙ ground arith
