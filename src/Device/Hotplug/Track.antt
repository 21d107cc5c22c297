-- ===== src/Device/Hotplug/Track.antt =====
-- A listener that follows the events of the watcher.
use mathlib.Core.Logic.{ite, if_pos, if_neg}
use omnimodem.Base.{
  ◌≡◌, refl, ◌∙◌, sym, ap, Bool, true, false, not, ◌&&◌, ◌||◌, List, [], ◌∷◌, ◌++◌, arith,
  if◌then◌else◌, inl, inr, Bool-cases,
}
use omnimodem.Device.{DeviceDescriptor, ids, has}
use omnimodem.Device.Hotplug.{HotplugEvent, arrived, departed, arrivals, departures, poll, polls}

module _ {K : Type 0} (same : Discrete K) where
  -- What a listener holds of one device after the events, from what it held before.
  unfoldable pub track : K → List (HotplugEvent K) → Bool → Bool
  track x [] b = b
  track x (arrived d ∷ events) b = track x events (ite (same d.id x) true b)
  track x (departed y ∷ events) b = track x events (ite (same y x) false b)

  track-append :
      (x : K) (es fs : List (HotplugEvent K)) (b : Bool)
      → track x (es ++ fs) b ≡ track x fs (track x es b)
  unfolding track
  track-append x [] fs b = refl
  track-append x (arrived d ∷ es) fs b = track-append x es fs (ite (same d.id x) true b)
  track-append x (departed y ∷ es) fs b = track-append x es fs (ite (same y x) false b)

  track-arrivals :
      (x : K) (now : List (DeviceDescriptor K)) (known : List K) (b : Bool)
      → (has same x known ≡ true → b ≡ true)
      → track x (arrivals same now known) b ≡ (b || has same x (ids now))
  unfolding track arrivals has
  track-arrivals x [] known b h = ground arith
  track-arrivals x (d ∷ ds) known b h = elim (same d.id x) [
    | yes p ↦ elim (Bool-cases (has same d.id known)) [
      | inl old ↦
          let held : b ≡ true = h (ap (λ t. has same t known) (sym p) ∙ old) in
          rw (old, if_pos (same d.id x) p) (track-arrivals x ds known b h ∙ ground (arith, held))
      | inr fresh ↦
          rw (fresh, if_pos (same d.id x) p)
            (ap (track x (arrivals same ds known)) (if_pos (same d.id x) p true b)
              ∙ track-arrivals x ds known true (λ e. refl)
              ∙ ground arith)
    ]
    | no ne ↦ elim (Bool-cases (has same d.id known)) [
      | inl old ↦ rw (old, if_neg (same d.id x) ne) (track-arrivals x ds known b h)
      | inr fresh ↦
          rw (fresh, if_neg (same d.id x) ne)
            (ap (track x (arrivals same ds known)) (if_neg (same d.id x) ne true b)
              ∙ track-arrivals x ds known b h)
    ]
  ]

  track-departures :
      (x : K) (olds now_ids : List K) (b : Bool)
      → track x (departures same olds now_ids) b
        ≡ (if has same x olds && not (has same x now_ids) then false else b)
  unfolding track departures has
  track-departures x [] now_ids b = refl
  track-departures x (old ∷ olds) now_ids b =
      ground (arith, track-departures x olds now_ids b, track-departures x olds now_ids false)

  poll_tracked :
      (walk : List K → List K) (now : List (DeviceDescriptor K)) (known : List K) (x : K)
      → ((s : List K) → has same x (walk s) ≡ has same x s)
      → track x (poll same walk now known).0 (has same x known) ≡ has same x (ids now)
  unfolding poll
  poll_tracked walk now known x walks =
      track-append x (arrivals same now known) (departures same (walk known) (ids now))
        (has same x known)
      ∙ ap (track x (departures same (walk known) (ids now)))
          (track-arrivals x now known (has same x known) (λ e. e))
      ∙ track-departures x (walk known) (ids now) (has same x known || has same x (ids now))
      ∙ ground (arith, walks known)

  known_now :
      (walk : List K → List K) (now : List (DeviceDescriptor K)) (known : List K) (x : K)
      → has same x (ids now) ≡ has same x (poll same walk now known).1
  unfolding poll
  known_now walk now known x = refl

  -- A listener that holds what the watcher knows of a device and follows the events of any
  -- further snapshots holds, at the end, what the watcher then knows. A walk over a hash set is to meet the set's own elements.
  pub track-polls :
      (walk : List K → List K) (nows : List (List (DeviceDescriptor K))) (known : List K) (x : K)
      → ((s : List K) → has same x (walk s) ≡ has same x s)
      → track x (polls same walk nows known).0 (has same x known)
        ≡ has same x (polls same walk nows known).1
  unfolding polls track
  track-polls walk [] known x walks = refl
  track-polls walk (now ∷ nows) known x walks =
      track-append x (poll same walk now known).0
        (polls same walk nows (poll same walk now known).1).0 (has same x known)
      ∙ ap (track x (polls same walk nows (poll same walk now known).1).0)
          (poll_tracked walk now known x walks ∙ known_now walk now known x)
      ∙ track-polls walk nows (poll same walk now known).1 x walks
