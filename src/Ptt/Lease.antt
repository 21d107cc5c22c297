-- ===== src/Ptt/Lease.antt =====
-- The exclusive transmit lease, crates/omnimodem/src/ptt/lease.rs. A rig is of any type with
-- decidable equality; a channel is its number. The lock makes each method one step.
pub mod Exclusive
mod Tests
use omnimodem.Base.{ℕ, Bool, true, false, List, [], ◌∷◌, Option, none, some, ◌==◌, if◌then◌else◌}
use omnimodem.Base.Store.{get, insert, remove}

-- `Err(HeldBy(h))` names the holder.
pub data Grant : Type 0 where
  granted : Grant
  held_by : ℕ → Grant

module _ {K : Type 0} (same : Discrete K) where
  unfoldable pub acquire : K → ℕ → List (K × ℕ) → Grant × List (K × ℕ)
  acquire rig channel holders = elim (get same rig holders) [
    | none ↦ (granted, insert same rig channel holders)
    | some h ↦ if h == channel then (granted, holders) else (held_by h, holders)
  ]

  unfoldable pub release : K → ℕ → List (K × ℕ) → List (K × ℕ)
  release rig channel holders = elim (get same rig holders) [
    | none ↦ holders
    | some h ↦ if h == channel then remove same rig holders else holders
  ]

  unfoldable pub may_transmit : K → ℕ → List (K × ℕ) → Bool
  may_transmit rig channel holders = elim (get same rig holders) [
    | none ↦ true
    | some h ↦ h == channel
  ]

  unfoldable pub holder : K → List (K × ℕ) → Option ℕ
  holder rig holders = get same rig holders

-- `retain(|_, h| h != channel)`
unfoldable pub release_all : {K : Type 0} → ℕ → List (K × ℕ) → List (K × ℕ)
release_all channel [] = []
release_all channel ((k, h) ∷ holders) =
    if h == channel then release_all channel holders else (k, h) ∷ release_all channel holders

-- The calls of the channels, in the order in which they take the lock.
pub data Op (K : Type 0) : Type 0 where
  acquires : K → ℕ → Op K
  releases : K → ℕ → Op K
  leaves : ℕ → Op K

abbrev pub by : {K : Type 0} → Op K → ℕ
by (acquires rig c) = c
by (releases rig c) = c
by (leaves c) = c

module _ {K : Type 0} (same : Discrete K) where
  unfoldable pub step : Op K → List (K × ℕ) → List (K × ℕ)
  step (acquires rig c) holders = (acquire same rig c holders).1
  step (releases rig c) holders = release same rig c holders
  step (leaves c) holders = release_all c holders

  unfoldable pub run : List (Op K) → List (K × ℕ) → List (K × ℕ)
  run [] holders = holders
  run (op ∷ ops) holders = run ops (step op holders)
