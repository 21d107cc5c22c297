-- ===== src/Ptt/Interlock.antt =====
-- The RX/TX interlock, crates/omnimodem/src/ptt/interlock.rs. The map of counters is a store; its
-- lock makes each method one step. Devices are any type with decidable equality.
pub mod Depth
mod Tests
use mathlib.Core.Logic.{ite}
use omnimodem.Base.{
  ℕ, ◌+◌, ◌-◌, ◌%◌, ◌^◌, Bool, true, false, List, [], ◌∷◌, Option, none, some, ltb, ◌==◌,
  if◌then◌else◌,
}
use omnimodem.Base.Store.{get, insert, remove}

module _ {K : Type 0} (same : Discrete K) where
  -- `*entry.or_insert(0) += 1` on a `u32`.
  unfoldable pub begin_tx : K → List (K × ℕ) → List (K × ℕ)
  begin_tx id keyed = elim (get same id keyed) [
    | none ↦ insert same id 1 keyed
    | some c ↦ insert same id ((c + 1) % 2 ^ 32) keyed
  ]

  unfoldable pub end_tx : K → List (K × ℕ) → List (K × ℕ)
  end_tx id keyed = elim (get same id keyed) [
    | none ↦ keyed
    | some c ↦ if c - 1 == 0 then remove same id keyed else insert same id (c - 1) keyed
  ]

  unfoldable pub is_muted : K → List (K × ℕ) → Bool
  is_muted id keyed = elim (get same id keyed) [ none ↦ false | some c ↦ ltb 0 c ]

-- The calls that the channels make, in the order in which they take the lock.
pub data Op (K : Type 0) : Type 0 where
  begin : K → Op K
  end : K → Op K

module _ {K : Type 0} (same : Discrete K) where
  unfoldable pub step : Op K → List (K × ℕ) → List (K × ℕ)
  step (begin id) keyed = begin_tx same id keyed
  step (end id) keyed = end_tx same id keyed

  unfoldable pub run : List (Op K) → List (K × ℕ) → List (K × ℕ)
  run [] keyed = keyed
  run (op ∷ ops) keyed = run ops (step op keyed)
